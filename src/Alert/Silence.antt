-- ===== src/Alert/Silence.antt =====
-- daemon/fedoralink/alert.py: how long a ring lasts.
use fedoralink.Prelude.{
  ℕ, zero, suc, ◌-◌, ◌*◌, ◌/◌, ◌≤◌, ◌≡◌, ◌≢◌, ◌⊎◌, inl, inr, refl, sym, ◌∙◌, ap, Bool, true, false,
  not, List, [], ◌∷◌, ◌==◌, ◌||◌, if◌then◌else◌, arith, Bool-cases, length, ==_iff,
}
use fedoralink.Framing.Codec.{All}
use fedoralink.Alert.{
  Alerter, silence, play_once, at_least_one, rings_for, going, start_ringing, tick, count, tick_on,
  if_ringing, ring,
}

-- what a turn of the timer leaves: silence, or one turn less to go
record Turned (a : Alerter) (x : Bool × Alerter) : Type 0 where
  less : (x.1.ringing ≡ false) ⊎ ((1 ≤ x.1.remaining) × (suc x.1.remaining ≤ a.remaining))
  few : count x.0 (x.1.remaining - 1) ≤ a.remaining - 1

left_over : (r : ℕ) → (r - 1 == 0) ≡ false → (1 ≤ r - 1) × (suc (r - 1) ≤ r)
left_over zero e = cc
left_over (suc zero) e = cc
left_over (suc (suc r)) e = (omega arith, omega arith)

tick-Turned : (plays : Bool) (a : Alerter) → Turned a (tick plays a)
unfolding tick play_once silence
tick-Turned plays a = elim (Bool-cases (a.remaining - 1 == 0)) [
  | inl e ↦ rw e (record { less = inl refl; few = omega arith })
  | inr e ↦
      let (some_left, one_less) = left_over a.remaining e in
      rw e (go a.has_player plays some_left one_less)
]
  where
    b : Alerter
    b = record a { remaining = a.remaining - 1 }

    play : Bool → Bool → Bool × Alerter
    play h p = if h then (if p then (true, b) else (false, silence b)) else (false, b)

    go :
        (h p : Bool)
        → 1 ≤ a.remaining - 1
        → suc (a.remaining - 1) ≤ a.remaining
        → Turned a (play h p)
    go true true x y = record { less = inr (x, y); few = omega arith }
    go true false x y = record { less = inl refl; few = omega arith }
    go false p x y = record { less = inr (x, y); few = omega arith }

count_mono : (b : Bool) (m n : ℕ) → m ≤ n → count b m ≤ count b n
count_mono true m n h = omega arith
count_mono false m n h = h

ring_ends :
    (plays : List Bool) (a : Alerter)
    → (a.ringing ≡ false) ⊎ ((1 ≤ length plays) × (a.remaining ≤ length plays))
    → ((ring plays a).1.ringing ≡ false) × ((ring plays a).0 ≤ a.remaining - 1)
unfolding ring
ring_ends [] a (inl e) = (e, omega arith)
ring_ends [] a (inr (h, k)) = absurd (omega arith)
ring_ends (p ∷ ps) a h = go (λ k. ring_ends ps (tick p a).1 k) a.ringing refl
  where
    x : Bool × Alerter
    x = tick p a

    turned : Turned a x
    turned = tick-Turned p a

    on : a.ringing ≡ true → (x.1.ringing ≡ false) ⊎ ((1 ≤ length ps) × (x.1.remaining ≤ length ps))
    on r = elim turned.less [
      | inl e ↦ inl e
      | inr (y, z) ↦ elim h [
        | inl e ↦ (let w : false ≡ true = sym e ∙ r in ground arith)
        | inr (u, v) ↦ inr (omega arith, omega arith)
      ]
    ]

    go :
        ((x.1.ringing ≡ false) ⊎ ((1 ≤ length ps) × (x.1.remaining ≤ length ps))
          → ((ring ps x.1).1.ringing ≡ false) × ((ring ps x.1).0 ≤ x.1.remaining - 1))
        → (r : Bool) → a.ringing ≡ r
        → ((if_ringing r (tick_on (ring ps) x) a).1.ringing ≡ false)
          × ((if_ringing r (tick_on (ring ps) x) a).0 ≤ a.remaining - 1)
    go more false e = (e, omega arith)
    go more true e =
        let (quiet, few) = more (on e) in
        let m = count_mono x.0 (ring ps x.1).0 (x.1.remaining - 1) few in
        let f = turned.few in (quiet, omega arith)

rings_positive : (seconds : ℕ) → 1 ≤ rings_for seconds
unfolding rings_for
rings_positive seconds = go ((seconds * 1000) / 1500)
  where
    go : (n : ℕ) → 1 ≤ at_least_one n
    go zero = omega arith
    go (suc n) = grind arith

started_remaining :
    (first : Bool) (seconds : ℕ) (a : Alerter)
    → ((start_ringing first seconds a).1.remaining ≤ rings_for seconds)
      × (count (start_ringing first seconds a).0 ((start_ringing first seconds a).1.remaining - 1)
          ≤ rings_for seconds)
unfolding start_ringing play_once silence
started_remaining first seconds a = elim (Bool-cases (not a.has_player || seconds == 0)) [
  | inl e ↦ rw e (omega arith, omega arith)
  | inr e ↦ rw e (go a.has_player first)
]
  where
    b : Alerter
    b = record a { ringing = false; remaining = rings_for seconds }

    play : Bool → Bool → Bool × Alerter
    play h p = going (if h then (if p then (true, b) else (false, silence b)) else (false, b))

    one : 1 ≤ rings_for seconds
    one = rings_positive seconds

    go :
        (h p : Bool)
        → ((play h p).1.remaining ≤ rings_for seconds)
          × (count (play h p).0 ((play h p).1.remaining - 1) ≤ rings_for seconds)
    go true true = (omega arith, omega (arith, one))
    go true false = (omega arith, omega arith)
    go false p = (omega arith, omega arith)

-- A ring that is started ends by itself: after at most `rings_for seconds` turns of the timer,
-- that is seconds * 1000 / 1500 and at least 1, whether the player can be started at each or not,
-- the timer is not set any more; and there were at most that many sounds, the first one counted.
pub ring-start_ringing :
    (first : Bool) (plays : List Bool) (seconds : ℕ) (a : Alerter)
    → rings_for seconds ≤ length plays
    → let begun = start_ringing first seconds a in
      let over = ring plays begun.1 in
      (over.1.ringing ≡ false) × (count begun.0 over.0 ≤ rings_for seconds)
ring-start_ringing first plays seconds a enough =
    let begun = start_ringing first seconds a in
    let (below, few) = started_remaining first seconds a in
    let one = rings_positive seconds in
    let (quiet, sounds) = ring_ends plays begun.1 (inr (omega arith, omega arith)) in
    let m = count_mono begun.0 (ring plays begun.1).0 (begun.1.remaining - 1) sounds in
    (quiet, omega arith)

starts :
    (seconds : ℕ) (a : Alerter)
    → a.has_player ≡ true
    → (seconds == 0) ≡ false
    → start_ringing true seconds a
      ≡ (true, record a { ringing = true; remaining = rings_for seconds })
unfolding start_ringing play_once silence
starts seconds a player n = simp (player, n)

ne→== : (n : ℕ) → n ≢ 0 → (n == 0) ≡ false
ne→== n h = elim (Bool-cases (n == 0)) [ inl e ↦ absurd (h ((==_iff n 0).0 e)) | inr e ↦ e ]

last_tick :
    (p : Bool) (a : Alerter)
    → (a.remaining - 1 == 0) ≡ true
    → tick p a ≡ (false, record a { ringing = false; remaining = a.remaining - 1 })
unfolding tick
last_tick p a e = rw e refl

next_tick :
    (p : Bool) (a : Alerter)
    → a.has_player ≡ true
    → p ≡ true
    → (a.remaining - 1 == 0) ≡ false
    → tick p a ≡ (true, record a { remaining = a.remaining - 1 })
unfolding tick play_once
next_tick p a player good e = simp (e, player, good)

ring_turn :
    (p : Bool) (ps : List Bool) (a : Alerter) (x : Bool × Alerter)
    → a.ringing ≡ true
    → tick p a ≡ x
    → (ring (p ∷ ps) a).0 ≡ count x.0 (ring ps x.1).0
unfolding ring
ring_turn p ps a x on e =
    ap (λ r. (if_ringing r (tick_on (ring ps) (tick p a)) a).0) on
    ∙ ap (λ (y : Bool × Alerter). count y.0 (ring ps y.1).0) e

ring_quiet : (ps : List Bool) (a : Alerter) → a.ringing ≡ false → (ring ps a).0 ≡ 0
unfolding ring
ring_quiet [] a e = refl
ring_quiet (p ∷ ps) a e = ap (λ r. (if_ringing r (tick_on (ring ps) (tick p a)) a).0) e

rings_each_turn :
    (plays : List Bool) (a : Alerter)
    → a.has_player ≡ true
    → a.ringing ≡ true
    → 1 ≤ a.remaining
    → All (λ p. p ≡ true) plays
    → a.remaining ≤ length plays
    → (ring plays a).0 ≡ a.remaining - 1
rings_each_turn [] a player on some_left good enough = absurd (omega arith)
rings_each_turn (p ∷ ps) a player on some_left (good, goods) enough =
    elim (Bool-cases (a.remaining - 1 == 0)) [
      | inl e ↦
          ring_turn p ps a (false, record a { ringing = false; remaining = a.remaining - 1 }) on
            (last_tick p a e)
          ∙ ring_quiet ps (record a { ringing = false; remaining = a.remaining - 1 }) refl
          ∙ sym ((==_iff (a.remaining - 1) 0).0 e)
      | inr e ↦
          let (x, y) = left_over a.remaining e in
          let b : Alerter = record a { remaining = a.remaining - 1 } in
          let rest : (ring ps b).0 ≡ a.remaining - 1 - 1 =
            rings_each_turn ps b player on x goods (omega arith) in
          ring_turn p ps a (true, b) on (next_tick p a player good e) ∙ ap suc rest ∙ omega arith
    ]

-- With a player that can be started each time, a ring of some seconds sounds exactly
-- `rings_for seconds` times, if there are at least that many turns of the timer.
pub ring-rings_for :
    (plays : List Bool) (seconds : ℕ) (a : Alerter)
    → a.has_player ≡ true
    → seconds ≢ 0
    → All (λ p. p ≡ true) plays
    → rings_for seconds ≤ length plays
    → let begun = start_ringing true seconds a in
      count begun.0 (ring plays begun.1).0 ≡ rings_for seconds
ring-rings_for plays seconds a player some_seconds good enough =
    let b : Alerter = record a { ringing = true; remaining = rings_for seconds } in
    let e : start_ringing true seconds a ≡ (true, b) =
      starts seconds a player (ne→== seconds some_seconds) in
    let one = rings_positive seconds in
    ap (λ (x : Bool × Alerter). count x.0 (ring plays x.1).0) e
    ∙ ap suc (rings_each_turn plays b player refl one good enough)
    ∙ omega arith
