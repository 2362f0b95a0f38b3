-- ===== src/Net/Ext/Register.antt =====
-- `mnet_ext_register`: which entries of the table it may change.
use m_net.Base.{
  ℕ, ◌≡◌, refl, sym, ap, ◌∙◌, ◌⊎◌, inl, inr, Bool, true, false, ◌&&◌, ◌||◌, not, Option, none, some,
  arith, leb, ◌==◌, Bool-cases,
}
use m_net.Net.State.{Mnet, Fn, ExtConfig, type_stream, type_broadcast, ext_max_size, ◌>>=◌, ◌>>◌}
use m_net.Net.Env.{Env}
use m_net.Net.Ext.{is_some, call_type, put_ext, ext_register}

-- The test of `mnet_ext_register` on an entry and a new one.
abbrev complete : ExtConfig → ExtConfig → Bool
complete slot ext =
    not slot.reserved
    && is_some ext.type_fn
    && is_some ext.filter_fn
    && is_some ext.open_cb
    && is_some ext.close_cb
    && is_some ext.listen_cb
    && is_some ext.accept_cb
    && is_some ext.connect_cb
    && is_some ext.disconnect_cb
    && is_some ext.state_fn
    && is_some ext.recv_fn
    && is_some ext.send_fn

module _ {W : Type 0} ⦃env : Env W⦄ where
  call_type_keeps :
      (f : Option Fn) (ctx ctype : ℕ) (s : Mnet W)
      → (call_type f ctx ctype s ≡ none) ⊎ ((t : ℕ) × (call_type f ctx ctype s ≡ some (t, s)))
  unfolding call_type
  call_type_keeps none ctx ctype s = inl refl
  call_type_keeps (some Fn.ext_type_fn) ctx ctype s = inr (ctype, refl)
  call_type_keeps (some (Fn.user k)) ctx ctype s = inr (env.user_type k ctx ctype, refl)
  call_type_keeps (some Fn.ext_filter_fn) ctx ctype s = inl refl
  call_type_keeps (some Fn.ext_op_cb) ctx ctype s = inl refl
  call_type_keeps (some Fn.ext_state_fn) ctx ctype s = inl refl
  call_type_keeps (some Fn.ext_stream_recv) ctx ctype s = inl refl
  call_type_keeps (some Fn.ext_dgram_recv) ctx ctype s = inl refl
  call_type_keeps (some Fn.ext_stream_send) ctx ctype s = inl refl
  call_type_keeps (some Fn.ext_dgram_send) ctx ctype s = inl refl

  -- The table, seen after a call, at a reserved entry `t`.
  abbrev Keeps : Mnet W → ℕ → Option (Bool × Mnet W) → Type 0
  Keeps s t r = (b : Bool) (s' : Mnet W) → r ≡ some (b, s') → s'.ext_config t ≡ s.ext_config t

  Keeps-none : (s : Mnet W) (t : ℕ) (r : Option (Bool × Mnet W)) → r ≡ none → Keeps s t r
  Keeps-none s t r e b s' h = cc

  Keeps-some :
      (s u : Mnet W) (t : ℕ) (b : Bool) (r : Option (Bool × Mnet W))
      → r ≡ some (b, u)
      → u.ext_config t ≡ s.ext_config t
      → Keeps s t r
  Keeps-some s u t b r e same b' s' h =
      let world_of : Option (Bool × Mnet W) → Mnet W = λ o. elim o [ none ↦ u | some (_, v) ↦ v ] in
      ap (λ v. v.ext_config t) (ap world_of (sym h ∙ e)) ∙ same

  put_elsewhere :
      (s : Mnet W) (ctype t : ℕ) (ext e : ExtConfig)
      → (s.ext_config t).reserved ≡ true
      → complete (s.ext_config ctype) ext ≡ true
      → (put_ext ctype e s).ext_config t ≡ s.ext_config t
  put_elsewhere s ctype t ext e taken test = elim (Bool-cases (t == ctype)) [
    | inl here ↦
        let same : t ≡ ctype = ground (arith, here) in
        let free : (s.ext_config ctype).reserved ≡ false = ground (arith, test) in
        absurd (cc (ap (λ k. (s.ext_config k).reserved) same))
    | inr elsewhere ↦ rw elsewhere refl
  ]

  -- `mnet_ext_register` never changes a reserved entry of the table, whatever it is given: those of
  -- the built-in types and of the extensions that are registered stay as they are.
  pub register-keeps :
      (ctype t : ℕ) (ext : Option ExtConfig) (s : Mnet W)
      → (s.ext_config t).reserved ≡ true
      → (b : Bool) (s' : Mnet W) → ext_register ctype ext s ≡ some (b, s')
      → s'.ext_config t ≡ s.ext_config t
  unfolding ext_register
  register-keeps ctype t none s taken = Keeps-some s s t false _ refl refl
  register-keeps ctype t (some ext) s taken =
      elim (Bool-cases (leb ctype type_broadcast || leb ext_max_size ctype)) [
        | inl out ↦ Keeps-some s s t false _ (rw out refl) refl
        | inr inside ↦ elim (Bool-cases (complete (s.ext_config ctype) ext)) [
          | inr lacks ↦ Keeps-some s s t false _ (rw (inside, lacks, ◌>>=◌) refl) refl
          | inl test ↦ elim (call_type_keeps ext.type_fn ext.ext_ctx ctype s) [
            | inl faults ↦ Keeps-none s t _ (rw (inside, test, faults, ◌>>=◌) refl)
            | inr (k, ran) ↦ elim (Bool-cases (leb type_stream k && leb k type_broadcast)) [
              | inr foreign ↦
                  Keeps-some s s t false _ (rw (inside, test, ran, foreign, ◌>>=◌) refl) refl
              | inl known ↦
                  Keeps-some s (put_ext ctype (record ext { reserved = true }) s) t true _
                    (rw (inside, test, ran, known, ◌>>=◌, ◌>>◌) refl)
                    (put_elsewhere s ctype t ext (record ext { reserved = true }) taken test)
            ]
          ]
        ]
      ]
