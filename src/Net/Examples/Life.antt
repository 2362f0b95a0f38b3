-- ===== src/Net/Examples/Life.antt =====
-- The theorems on the life of channels, on timers, extensions and addresses at concrete states.
use m_net.Base.{
  ℕ, ◌≡◌, inl, refl, true, none, some, List, [], ◌∷◌, ◌++◌, arith, ◌==◌, if◌then◌else◌, length,
}
use m_net.Base.Int.{pos, negsuc}
use m_net.Skiplist.{Ptr, null}
use m_net.Skiplist
use m_net.Rwb
use m_net.Rwb.{Rwb, RwbHead}
use m_net.Net.State.{ExtConfig, Chann, ChannTm, Fn, Mnet, ChannState}
use m_net.Net.Ext.{no_ext, put_ext, call_type, ext_register}
use m_net.Net.Ext.Register.{register-keeps}
use m_net.Net.Address.{colon, Parsed, parse_ipport}
use m_net.Net.Address.Parse.{parse-join}
use m_net.Net.Chann.{chann_disconnect_socket}
use m_net.Skiplist.{Skiplist}
use m_net.Skiplist.Entries.{Entry, IsSkiplist, place, erase}
use m_net.Skiplist.Insert.{insert-place, entry}
use m_net.Skiplist.Random.{create-IsSkiplist, random_level_one}
use m_net.Net.Timer.{tm_schedule, tm_update}
use m_net.Net.Timer.Update.{timer, due, renewed, update-place}
use m_net.Net.Timer.Schedule.{Scheduled, schedule-first}
use m_net.Net.Chann.{chann_create}
use m_net.Net.Chann.Channels.{IsList, made, create-IsList}
use m_net.Net.Api.{mnet_chann_close}
use m_net.Net.Api.Close.{retired, close-retires}
use m_net.Net.Chann.Disconnect.{
  IsLive, disconnected, disconnect_hangs, disconnect_closes, with_emptied, emptied,
}
use m_net.Rwb.{Rounds, destroy_loop}
use m_net.Net.Send.Kernel.{stream_config}
use m_net.Net.Examples.Kernel.{
  small, tcp, with_chann, empty-IsQueue, last_byte, busy, last_byte-IsQueue,
}

idle-IsLive : IsLive 3 (with_chann (tcp Rwb.empty)) (tcp Rwb.empty)
idle-IsLive = record {
  there = refl;
  opened = refl;
  active = refl;
  builtin = refl;
  queue = empty-IsQueue;
}

busy-IsLive : IsLive 3 busy (tcp last_byte)
busy-IsLive = record {
  there = refl;
  opened = refl;
  active = refl;
  builtin = refl;
  queue = last_byte-IsQueue;
}

disconnect_hangs_example :
    (chann_disconnect_socket 3 busy ≡ none)
    × ((fuel : ℕ) → destroy_loop fuel last_byte ≡ Rounds.running last_byte)
    × (chann_disconnect_socket 3 (with_emptied 3 busy (tcp last_byte))
        ≡ some (
          true,
          disconnected 3 (with_emptied 3 busy (tcp last_byte)) (emptied 3 busy (tcp last_byte)),
        ))
disconnect_hangs_example = disconnect_hangs 3 busy (tcp last_byte) busy-IsLive λ e. cc

disconnect_closes_example :
    chann_disconnect_socket 3 (with_chann (tcp Rwb.empty))
    ≡ some (true, disconnected 3 (with_chann (tcp Rwb.empty)) (tcp Rwb.empty))
disconnect_closes_example =
    disconnect_closes 3 (with_chann (tcp Rwb.empty)) (tcp Rwb.empty) idle-IsLive refl

-- "127.0.0.1" and "80".
abbrev local : List ℕ
local = 49 ∷ 50 ∷ 55 ∷ 46 ∷ 48 ∷ 46 ∷ 48 ∷ 46 ∷ 49 ∷ []

abbrev eighty : List ℕ
eighty = 56 ∷ 48 ∷ []

parse-join_example :
    parse_ipport (λ t. pos (length t)) (local ++ colon ∷ eighty) ≡ Parsed.parsed local (pos 2)
parse-join_example =
    parse-join (λ t. pos (length t)) local eighty
      (refl, (refl, (refl, (refl, (refl, (refl, (refl, (refl, (refl, tt)))))))))

-- A table with an entry for TCP only.
abbrev one_entry : Mnet (List ℕ)
one_entry = record (with_chann (tcp Rwb.empty)) {
  ext_config = λ t. if t == 1 then stream_config else no_ext;
}

-- An extension whose type is TCP.
abbrev tunnel : ExtConfig
tunnel = record stream_config { type_fn = some (Fn.user 0) }

register_run : ext_register 5 (some tunnel) one_entry ≡ some (true, put_ext 5 tunnel one_entry)
unfolding ext_register call_type
register_run = refl

register-keeps_example : (put_ext 5 tunnel one_entry).ext_config 1 ≡ one_entry.ext_config 1
register-keeps_example =
    register-keeps 5 1 (some tunnel) one_entry refl true (put_ext 5 tunnel one_entry) register_run

-- A clock with one timer, at time 20, for the channel at address 3.
abbrev pub tm_20 : ChannTm
tm_20 = record { interval = pos 10; time = pos 20; chann = 3 }

abbrev pub timers : List (Entry ChannTm)
timers = entry Skiplist.create [] 5 2 (pos 20) tm_20 ∷ []

pub clock : Skiplist ChannTm
clock =
    (insert-place Skiplist.create [] 5 2 (pos 20) tm_20 create-IsSkiplist (omega arith)
      (omega arith) tt (omega arith) (omega arith)).0

pub clock-IsSkiplist : IsSkiplist clock timers
unfolding clock place
clock-IsSkiplist =
    (insert-place Skiplist.create [] 5 2 (pos 20) tm_20 create-IsSkiplist (omega arith)
      (omega arith) tt (omega arith) (omega arith)).2

abbrev timed : Mnet (List ℕ)
timed = record (with_chann (tcp Rwb.empty)) { tm_clock = clock }

schedule-first_example : Scheduled timed timers (tm_schedule timed)
schedule-first_example = schedule-first timed timers clock-IsSkiplist (refl, tt)

close-retires_example :
    mnet_chann_close 3 (with_chann (tcp Rwb.empty))
    ≡ some (
      tt,
      retired 3
          (with_chann (tcp Rwb.empty))
          (record (tcp Rwb.empty) { fd = negsuc 0; state = ChannState.disconnect }),
    )
close-retires_example =
    close-retires 3 (with_chann (tcp Rwb.empty)) (tcp Rwb.empty) refl idle-IsLive refl refl

idle-IsList : IsList (with_chann (tcp Rwb.empty)) (3 ∷ [])
idle-IsList = record {
  linked = (refl, omega arith, (tcp Rwb.empty, refl, refl, refl));
  apart = (tt, tt);
  counted = refl;
}

create-IsList_example :
    (s' : Mnet (List ℕ)) × (chann_create 1 ChannState.disconnect (with_chann (tcp Rwb.empty))
      ≡ some (9, s'))
    × IsList s' (9 ∷ 3 ∷ [])
    × (s'.heap 9 ≡ some (made 1 ChannState.disconnect (with_chann (tcp Rwb.empty))))
create-IsList_example =
    create-IsList 1 ChannState.disconnect (with_chann (tcp Rwb.empty)) (3 ∷ []) idle-IsList
      (omega arith) (omega arith, tt)

-- The channel with that timer, which is set anew to 10 microseconds from now.
abbrev pub with_timer : Chann
with_timer = record (tcp Rwb.empty) { timer_node = 5 }

abbrev pub timed_chann : Mnet (List ℕ)
timed_chann = record timed { heap = λ p. if p == 3 then some with_timer else none }

update-place_example :
    (t : Mnet (List ℕ)) × (tm_update 3 (pos 10) timed_chann ≡ some (tt, t))
    × IsSkiplist t.tm_clock (
        place
          (timer 9 1
            (due 3 (pos 10) timed_chann with_timer)
            (renewed 3 (pos 10) timed_chann with_timer tm_20))
          (erase 5 timers))
    × (t.heap 3 ≡ some (record with_timer { timer_node = 9 }))
unfolding erase
update-place_example =
    update-place 3 (pos 10) timed_chann with_timer timers
      (record { key = pos 20; value = tm_20; level = 2 }) 1 refl clock-IsSkiplist (inl refl)
      clock-IsSkiplist.stored.0 (random_level_one 65535 [] (omega arith)) (omega arith)
      (omega arith) tt
