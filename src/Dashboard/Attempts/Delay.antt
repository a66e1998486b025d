-- ===== src/Dashboard/Attempts/Delay.antt =====
-- dashboard_auth.py: how long `reserve` refuses an origin.
use cvebeacon.Prelude.{
  ℕ, suc, ◌+◌, ◌-◌, ◌*◌, ◌^◌, ◌≤◌, ◌<◌, min, String, ◌≡◌, refl, ap, ◌∙◌, true, false, some, arith,
  inl, inr, Bool-cases, Option-cases, length, length-select, ltb, leb, str_eq, eq_iff, sym,
}
use native.Mathlib.Nat.{mul-le-mul_right}
use cvebeacon.Dashboard.Dicts.{
  find, assign, find-assign, find-assign_other, find-chosen_known, find-chosen_dropped,
  length-assign, is_dict,
}
use cvebeacon.Dashboard.Attempts.{
  Attempts, Origins, attempts_of, admit, delay, next_attempts, pruned, reserve_in, reserve,
}

lt→leb_false : (m n : ℕ) → n < m → leb m n ≡ false
lt→leb_false m n h = ground arith

min_le : (m k n : ℕ) → k ≤ m → min n k ≤ m
min_le m k n h = omega (arith, h)

pub admit-roomy :
    (origin : String) (table : Origins) → length table < 4096 → admit origin table ≡ table
unfolding admit
admit-roomy origin table h = elim (Option-cases (find origin table)) [
  | inl e ↦ rw (e, admit) (rw (lt→leb_false 4096 (length table) h))
  | inr (a, e) ↦ rw (e, admit)
]

module _ (second : ℕ) where
  -- The origin is in the table and has to wait until the time.
  abbrev pub Waits : String → ℕ → Origins → Type 0
  Waits origin until table =
      (a : Attempts) × (find origin table ≡ some a) × (a.next_try ≡ until) × (until ≤ a.expiry)

  pruned-Waits :
      (origin : String) (until now : ℕ) (table : Origins)
      → now < until
      → Waits origin until table
      → Waits origin until (pruned second now table)
  pruned-Waits origin until now table h (a, e, same, late) =
      (a, find-chosen_known (λ b. ltb now b.expiry) origin a table e (ground arith), same, late)

  pub refused :
      (origin : String) (until now : ℕ) (table : Origins)
      → now < until
      → Waits origin until table
      → (reserve second origin now table).1 ≡ false
  unfolding reserve_in
  refused origin until now table h w =
      let (a, e, same, late) = pruned-Waits origin until now table h w in ground (arith, e, same, h)

  granted-Waits :
      (origin other : String) (until now : ℕ) (table : Origins)
      → now < until
      → length table < 4096
      → Waits origin until table
      → ltb now (attempts_of other table).next_try ≡ false
      → Waits origin until
          (assign other (next_attempts second now (attempts_of other table)) (admit other table))
  granted-Waits origin other until now table h room (a, e, same, late) f =
      elim (Bool-cases (str_eq other origin)) [
        | inl g ↦ absurd (
            ground (
              arith,
              e,
              same,
              f,
              h,
              ap (λ s. (attempts_of s table).next_try) ((eq_iff other origin).0 g),
            ))
        | inr g ↦ (
          a,
          find-assign_other origin other (next_attempts second now (attempts_of other table))
                (admit other table) g
              ∙ ap (find origin) (admit-roomy other table room)
              ∙ e,
          same,
          late,
        )
      ]

  pub reserve-Waits :
      (origin other : String) (until now : ℕ) (table : Origins)
      → now < until
      → length table < 4096
      → Waits origin until table
      → Waits origin until (reserve second other now table).0
        × (length (reserve second other now table).0 ≤ suc (length table))
  unfolding reserve_in
  reserve-Waits origin other until now table h room w =
      let w' = pruned-Waits origin until now table h w in
      let few = length-select (λ (k, a). ltb now a.expiry) table in
      elim (Bool-cases (ltb now (attempts_of other (pruned second now table)).next_try)) [
        | inl f ↦ rw (f, reserve_in) (w', omega (arith, few))
        | inr f ↦
            rw (f, reserve_in)
              (
                granted-Waits origin other until now (pruned second now table) h
                    (omega (arith, few)) w' f,
                omega (
                  arith,
                  few,
                  length-assign other
                      (next_attempts second now (attempts_of other (pruned second now table)))
                      (admit other (pruned second now table)),
                  ap length
                      (admit-roomy other (pruned second now table) (omega (arith, few, room))),
                ),
              )
      ]

  delay-bound : (failures : ℕ) → delay second failures ≤ 900 * second
  delay-bound failures =
      omega (arith, mul-le-mul_right second (min_le 900 60 (2 ^ (failures - 1)) (omega arith)))

  -- When a reservation that is granted lets the origin try again.
  abbrev pub retry_at : String → ℕ → Origins → ℕ
  retry_at origin now table =
      now + delay second (min ((attempts_of origin (pruned second now table)).failures + 1) 7)

  pub reserve-start :
      (origin : String) (now : ℕ) (table : Origins)
      → (reserve second origin now table).1 ≡ true
      → Waits origin (retry_at origin now table) (reserve second origin now table).0
  unfolding reserve_in
  reserve-start origin now table e =
      let a = attempts_of origin (pruned second now table) in
      elim (Bool-cases (ltb now a.next_try)) [
        | inl f ↦ absurd (ground (arith, e, f))
        | inr f ↦
            rw (f, reserve_in)
              (
                next_attempts second now a,
                find-assign origin (next_attempts second now a)
                    (admit origin (pruned second now table)),
                refl,
                omega (arith, delay-bound (min (a.failures + 1) 7)),
              )
      ]

  -- When the origin may try again, and not before, its reservation is granted.
  pub reserve-exact :
      (origin : String) (until later : ℕ) (table : Origins)
      → is_dict table ≡ true
      → Waits origin until table
      → (reserve second origin later table).1 ≡ leb until later
  unfolding reserve_in
  reserve-exact origin until later table d w = elim (Bool-cases (leb until later)) [
    | inr early ↦ refused origin until later table (ground (arith, early)) w ∙ sym early
    | inl late ↦
        let (a, e, same, end) = w in
        elim (Bool-cases (ltb later a.expiry)) [
          | inl f ↦
              ground
                (arith, late, same, find-chosen_known (λ b. ltb later b.expiry) origin a table e f)
          | inr f ↦
              ground
                (arith, late, find-chosen_dropped (λ b. ltb later b.expiry) origin a table d e f)
        ]
  ]
