-- ===== src/Lib.antt =====
-- A model of mnet, a small network library, and theorems about it.
--
-- The program: src/mnet_core.c keeps one global mnet_t. It holds the list of all channels (a channel
-- is a socket with a state, a queue of unsent bytes and maybe a timer), a skip list of timers, the
-- event arrays of epoll, and a table of extensions, by which a type of channel replaces the functions
-- that send, receive and filter. The user calls mnet_poll, takes messages by mnet_result_next until
-- there is none, and acts on the channels in between.
--
-- The files:
--   Base                the shared names, lists over native numbers, integers
--   Rwb                 rwb_t, rwb_head_t and the _rwb_ functions: the queue of unsent bytes
--     Contents          the bytes that a queue holds, well-formedness, _rwb_cache
--     Drain             _rwb_drain
--     Destroy           _rwb_destroy, whose loop need not end
--   Skiplist            skiplist_t, skipnode_t, sk_link and the functions on them, on a store of links
--     Ring, Entries     circular chains of links, and what it is for a skip list to hold nodes
--     Place, Search     where a node goes, and the inner loop of skiplist_insert
--     Insert, Remove    skiplist_insert and skiplist_remove_skipnode
--     Random, Destroy   skiplist_create and skiplist_random_level, and skiplist_destroy
--   Net.State           mnet_t, s_chann and the types of src/mnet_core.h; Net.State.Heap on writes
--   Net.Env             what the library calls: system calls, clock, rand, malloc, callbacks
--   Net.Ext             the table of extensions and mnet_ext_register; Net.Ext.Register on the latter
--   Net.Event           _evt_check_expand, _evt_add, _evt_del
--   Net.Timer           _tm_active, _tm_update, _tm_kill, _tm_schedule; Net.Timer.Schedule on the last,
--                       Net.Timer.Update on the second, Net.Timer.Interval on what it keeps
--                       of an interval
--   Net.Chann           the _chann_ functions but those on data; Net.Chann.Disconnect on
--                       disconnect, Net.Chann.Channels on the list of all channels,
--                       Net.Chann.Unlink and Net.Chann.Destroy on its shrinking,
--                       Net.Chann.Message on messages
--   Net.Send            data in and out, Net.Send.Kernel and Net.Send.Stream on a TCP send,
--                       Net.Send.Round and Net.Send.Flush on the cached bytes,
--                       Net.Send.Interest on a channel's interest, Net.Send.Failure on recv and
--                       failures, Net.Send.Steps and Net.Send.Session on a run of the channel
--   Net.Poll            _tm_next, _evt_del_channs, _evt_poll, _evt_result_next; Net.Poll.Report on how
--                       a failure is reported, Net.Poll.Delete on closed channels, Net.Poll.Due on
--                       the first timer after a poll, Net.Poll.Order on the events of a poll
--   Net.Api, Net.Dgram  the functions of src/mnet_core.h on channels; Net.Api.Close on the close
--   Net.Init            _evt_init, _evt_fini, mnet_init, mnet_fini, mnet_report, mnet_multi_reset_event;
--                       Net.Init.Fini on mnet_fini
--   Net.Address         mnet_parse_ipport, mnet_chann_socket_addr, mnet_chann_peer_addr;
--                       Net.Address.Parse on a text with a colon; Net.Address.Resolve, mnet_resolve
--   Mdns                the query of extension/mdns/mdns.c; Mdns.Response, its answer;
--                       Mdns.Name on the name in a query, Mdns.Query on the whole of it
--   Tls                 extension/openssl/mnet_tls.c
--     World             mnet_tls_ud_t, and the calls of OpenSSL and calloc
--     Callbacks         the functions that are registered; Config registers them, mnet_tls_config
--     Link              a channel with its TLS record, and its disconnect
--     Handshake, Gate   _tls_filter_fn, and what the event loop tells of a readable channel
--     Data, Write       data before the handshake is done, and after it
--     Life              the record from open to close, and the registration
--   Wrapper             the classes for C++ of src/mnet_wrapper.h
--     World, Object     the objects of the class Chann, its constructors and methods
--     Loop              ChannDispatcher
--     Dispatch, Accept  which channel an object stands for, and which object gets a message
--     Host              resolveHost
--   Lua                 extension/lua/mnet_lua.c
--     World             the values of Lua, _check_type, the records lua_chann_t
--     Library, Chann    the functions of the module, on the library and on a channel
--     Module            the table mnet_lib
--     Arguments         calls with arguments of other types, or with a dangling pointer
--     Handles, Life     the pointers by which Lua knows the channels, from open or accept to close
--   Net.Hooks           mnet_allocator, mnet_setlog, mm_malloc and mm_log, on variables of their own
--   Net.Quiet           a kernel in which nothing happens, for the examples
--   Rwb.Examples, Skiplist.Examples, Net.Examples, Mdns.Examples, Tls.Examples,
--   Wrapper.Examples, Lua.Examples
--                       runs and instances
--
-- How it corresponds: a function keeps its name, without a leading underscore. A function that uses
-- the global state is a step from one Mnet to the next, with none for undefined behaviour (a read
-- through a null or freed pointer, a call of a null function) and for a loop that does not end; the
-- loop of _rwb_destroy, which need not end, has its rounds told apart in Rwb. A channel is an address into the heap of the Mnet; the links of the skip list are functions from
-- addresses; the chain of blocks of a queue is a list. System calls and callbacks are the fields of
-- the argument Env, on a world of any type; a theorem that needs something of them says so in its
-- hypotheses, as IsKernel does. The calls of OpenSSL are fields of the argument Openssl, and the
-- TLS callbacks are plugged into an Env by with_tls. The methods of the C++ classes run on a world
-- that holds the objects. A function of the Lua module takes the arguments of the call as a list and
-- ends in results or in an error; what Lua makes of texts and numbers is the argument Texts. Numbers
-- that the code keeps nonnegative are natural numbers, others integers without a bound, but for the
-- narrowing of a timer's interval, of a number of Lua and of the bytes that mnet_chann_cached
-- reckons to int, and of a port to 16 bits, which are written out. The Linux form of the conditional
-- code is the one modelled.
--
-- Fuel: a loop runs on fuel where it is not structural. _rwb_drain has two rounds more than there are
-- blocks, _rwb_destroy, skiplist_destroy and the inner loop of skiplist_insert one more than there are
-- elements; _chann_sended_rwb one more than there are blocks, as a round that goes on empties one.
-- _evt_del_channs, mnet_fini, mnet_report and mnet_multi_reset_event have one round more than there are
-- channels. skiplist_random_level runs over the list of results of rand. The loops of _tm_next,
-- _evt_result_next and ChannDispatcher take the fuel as an argument.
--
-- Not modelled: the messages that are logged, the forms for kqueue and Windows, the wrapper
-- mnet-chann.lua around the Lua module and the bindings for LuaJIT, which are in Lua, the example and
-- test programs, and wepoll, which is a copy of another project. inet_ntoa and the texts of numbers
-- are parameters.
pub mod Base
pub mod Lua
pub mod Mdns
pub mod Net
pub mod Rwb
pub mod Skiplist
pub mod Tls
pub mod Wrapper
