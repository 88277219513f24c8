-- ===== src/Conn/Connect/Ports.antt =====
-- libCSP/trunk/src/csp_conn.c: the loop of `csp_connect` that looks for an ephemeral port.
use cubesat_space_protocol.Base.{
  ℕ, zero, suc, ◌+◌, ◌-◌, ◌%◌, ◌^◌, ◌≤◌, ◌<◌, ◌≡◌, ◌≢◌, inl, inr, Option, none, some, ltb, ◌==◌,
  Bool-cases, Bool, true, false, if◌then◌else◌, refl, subst, arith,
}
use cubesat_space_protocol.Header.{port_max}
use cubesat_space_protocol.Port.{max_bind_port}
use cubesat_space_protocol.Conn.Connect.{choose}

-- CSP_MAX_BIND_PORT + 1 to CSP_ID_PORT_MAX
abbrev pub IsEphemeral : ℕ → Type 0
IsEphemeral s = (max_bind_port < s) × (s ≤ port_max)

-- The port that the loop tries after `s`.
abbrev turn : ℕ → ℕ
turn s = if ltb port_max ((s + 1) % 2 ^ 8) then max_bind_port + 1 else (s + 1) % 2 ^ 8

-- The tries from `s` until `t`, from 1 to 48.
abbrev pub tries : ℕ → ℕ → ℕ
tries s t = if ltb s t then t - s else t + 48 - s

turn-Ephemeral : (s : ℕ) → IsEphemeral s → IsEphemeral (turn s)
turn-Ephemeral s h = ground arith

tries-turn :
    (s t : ℕ) → IsEphemeral s → IsEphemeral t → turn s ≢ t → tries (turn s) t + 1 ≡ tries s t
tries-turn s t hs ht ne = ground arith

module _ (unused : ℕ → Bool) where
  -- What the loop is to find: an ephemeral port, not the one in use before, that no connection has.
  abbrev pub Chosen : ℕ → Option ℕ → Type 0
  Chosen start none = ⊥
  Chosen start (some r) = IsEphemeral r × (r ≢ start) × (unused r ≡ true)

  unfound :
      (s start : ℕ)
      → IsEphemeral s
      → IsEphemeral start
      → turn s ≢ start
      → ((s + 1) % 2 ^ 8 == start) ≡ false
  unfound s start hs ht ne = ground arith

  used_ne : (s t : ℕ) → unused s ≡ true → unused t ≡ false → t ≢ s
  used_ne s t h h' = λ e. ground (arith, subst (λ y. unused y ≡ false) e h')

  choose_from :
      (fuel start s p : ℕ)
      → IsEphemeral s
      → IsEphemeral start
      → IsEphemeral p
      → unused p ≡ true
      → tries s p ≤ fuel
      → tries s p < tries s start
      → Chosen start (choose fuel unused start s)
  unfolding choose
  choose_from zero start s p hs ht hp u enough sooner = absurd (ground arith)
  choose_from (suc fuel) start s p hs ht hp u enough sooner =
      let ne : turn s ≢ start = ground arith in
      rw (unfound s start hs ht ne) (elim (Bool-cases (unused (turn s))) [
        | inl e ↦ rw e (turn-Ephemeral s hs, ne, e)
        | inr e ↦ rw e (
            choose_from fuel start (turn s) p (turn-Ephemeral s hs) ht hp u
              (omega (arith, tries-turn s p hs hp (used_ne p (turn s) u e)))
              (omega (
                arith,
                tries-turn s p hs hp (used_ne p (turn s) u e),
                tries-turn s start hs ht ne,
              )))
      ])

  -- If any ephemeral port but the one last used is free, the loop ends within 47 rounds, with an ephemeral port that is free and not the one last used.
  pub choose-Chosen :
      (start p : ℕ)
      → IsEphemeral start
      → IsEphemeral p
      → p ≢ start
      → unused p ≡ true
      → Chosen start (choose 47 unused start start)
  choose-Chosen start p ht hp ne u =
      choose_from 47 start start p ht ht hp u (ground arith) (ground arith)

  used_up :
      (fuel start s : ℕ)
      → IsEphemeral s
      → IsEphemeral start
      → max_bind_port + 1 < start
      → tries s start ≤ fuel
      → ((p : ℕ) → IsEphemeral p → p ≢ start → unused p ≡ false)
      → choose fuel unused start s ≡ some start
  unfolding choose
  used_up zero start s hs ht h enough used = absurd (ground arith)
  used_up (suc fuel) start s hs ht h enough used = elim (Bool-cases ((s + 1) % 2 ^ 8 == start)) [
    | inl e ↦ rw e refl
    | inr e ↦
        let ne : turn s ≢ start = ground arith in
        rw e (
          rw (used (turn s) (turn-Ephemeral s hs) ne) (
            used_up fuel start (turn s) (turn-Ephemeral s hs) ht h
              (omega (arith, tries-turn s start hs ht ne)) used))
  ]

  -- If every other ephemeral port is taken and the last one used is not the lowest, the loop ends within 48 rounds back at the last one used, for which the caller gives up.
  pub choose-used_up :
      (start : ℕ)
      → IsEphemeral start
      → max_bind_port + 1 < start
      → ((p : ℕ) → IsEphemeral p → p ≢ start → unused p ≡ false)
      → choose 48 unused start start ≡ some start
  choose-used_up start ht h used = used_up 48 start start ht ht h (ground arith) used

  endless :
      (fuel s : ℕ)
      → IsEphemeral s
      → ((p : ℕ) → IsEphemeral p → unused p ≡ false)
      → choose fuel unused (max_bind_port + 1) s ≡ none
  unfolding choose
  endless zero s hs used = refl
  endless (suc fuel) s hs used =
      let missed : ((s + 1) % 2 ^ 8 == max_bind_port + 1) ≡ false = ground arith in
      rw missed (
        rw (used (turn s) (turn-Ephemeral s hs)) (endless fuel (turn s) (turn-Ephemeral s hs) used))

  -- If every ephemeral port is taken and the last one used is the lowest, the loop never ends: the wrap to the lowest port comes behind the test for the last one used.
  pub choose_endless :
      (fuel : ℕ)
      → ((p : ℕ) → IsEphemeral p → unused p ≡ false)
      → choose fuel unused (max_bind_port + 1) (max_bind_port + 1) ≡ none
  choose_endless fuel used = endless fuel (max_bind_port + 1) (omega arith) used
