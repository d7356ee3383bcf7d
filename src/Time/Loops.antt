-- ===== src/Time/Loops.antt =====
-- The loops of `time2date` end, and undo the sums of `date2time`.
use native.Mathlib.Numerals.{add-one}
use native.Mathlib.Decide.{ℕ_discrete}
use native.Mathlib.Nat.{add-zero}
use stanix.Base.{
  ◌∙◌, ap, ℕ, zero, suc, ◌+◌, ◌-◌, ◌≤◌, ◌<◌, ◌≡◌, refl, inl, inr, Bool-cases, false, some, ltb,
  ◌==◌, if◌then◌else◌, arith,
}
use stanix.Time.{february, nbofdayin, month_days, year_length, year_days, year_loop, month_loop}

year_days-suc : (year : ℕ) → 1970 ≤ year → year_days (year + 1) ≡ year_length year + year_days year
unfolding year_days
year_days-suc year h = rw add-one (ground arith)

-- Where the first loop ends.
pub record YearEnd (total : ℕ) (out : ℕ × ℕ) : Type 0 where
  pub after : 1970 ≤ out.0
  pub within : out.1 < year_length out.0
  pub total_days : year_days out.0 + out.1 ≡ total

pub year_loop-YearEnd :
    (fuel year day : ℕ)
    → 1970 ≤ year
    → day < fuel
    → (out : ℕ × ℕ) × (year_loop fuel year day ≡ some out) × YearEnd (year_days year + day) out
unfolding year_loop
year_loop-YearEnd zero year day h enough = absurd (omega arith)
year_loop-YearEnd (suc fuel) year day h enough = elim (Bool-cases (ltb day (year_length year))) [
  | inl e ↦ ((year, day), rw e, record { after = h; within = ground arith; total_days = refl })
  | inr e ↦
      let more : year_length year ≤ day = ground arith in
      let (out, ran, end) =
        year_loop-YearEnd fuel (year + 1) (day - year_length year) (omega arith) (ground arith) in
      (
        out,
        rw e ran,
        record {
          after = end.after;
          within = end.within;
          total_days = end.total_days ∙ omega (arith, year_days-suc year h);
        },
      )
]

-- A statement about the months from 1 to 12 is checked for each.
abbrev each_month {ℓ} :
    (P : ℕ → Type ℓ)
    → P 1
    → P 2
    → P 3
    → P 4
    → P 5
    → P 6
    → P 7
    → P 8
    → P 9
    → P 10
    → P 11
    → P 12
    → (month : ℕ) → 1 ≤ month
    → month ≤ 12
    → P month
each_month P a b c d e f g h i j k l month lo hi = elim (ℕ_discrete month 1) [
  | yes q ↦ rw q a
  | no n1 ↦ elim (ℕ_discrete month 2) [
    | yes q ↦ rw q b
    | no n2 ↦ elim (ℕ_discrete month 3) [
      | yes q ↦ rw q c
      | no n3 ↦ elim (ℕ_discrete month 4) [
        | yes q ↦ rw q d
        | no n4 ↦ elim (ℕ_discrete month 5) [
          | yes q ↦ rw q e
          | no n5 ↦ elim (ℕ_discrete month 6) [
            | yes q ↦ rw q f
            | no n6 ↦ elim (ℕ_discrete month 7) [
              | yes q ↦ rw q g
              | no n7 ↦ elim (ℕ_discrete month 8) [
                | yes q ↦ rw q h
                | no n8 ↦ elim (ℕ_discrete month 9) [
                  | yes q ↦ rw q i
                  | no n9 ↦ elim (ℕ_discrete month 10) [
                    | yes q ↦ rw q j
                    | no n10 ↦ elim (ℕ_discrete month 11) [
                      | yes q ↦ rw q k
                      | no n11 ↦ elim (ℕ_discrete month 12) [
                        | yes q ↦ rw q l
                        | no n12 ↦ absurd (omega arith)
                      ]
                    ]
                  ]
                ]
              ]
            ]
          ]
        ]
      ]
    ]
  ]
]

-- Where the second loop ends.
pub record MonthEnd (year total : ℕ) (out : ℕ × ℕ) : Type 0 where
  pub from : 1 ≤ out.0
  pub to : out.0 ≤ 12
  pub length : ℕ
  pub has_length : nbofdayin year out.0 ≡ some length
  pub within : out.1 < length
  pub total_days : month_days year out.0 + out.1 ≡ total

-- The length of a month, and what the `switch` makes of it.
abbrev MonthStep : ℕ → ℕ → Type 0
MonthStep year month =
    (n : ℕ) × (nbofdayin year month ≡ some n)
    × (month_days year month + n
        ≡ (if month == 12 then year_length year else month_days year (month + 1)))

month_step : (year month : ℕ) → 1 ≤ month → month ≤ 12 → MonthStep year month
unfolding month_days nbofdayin
month_step year month lo hi =
    each_month (MonthStep year) (31, refl, ground arith) (february year, refl, ground arith)
      (31, refl, ground arith) (30, refl, ground arith) (31, refl, ground arith)
      (30, refl, ground arith) (31, refl, ground arith) (31, refl, ground arith)
      (30, refl, ground arith) (31, refl, ground arith) (30, refl, ground arith)
      (31, refl, ground arith) month lo hi

pub month_loop-MonthEnd :
    (fuel year month day : ℕ)
    → month + fuel ≡ 13
    → 1 ≤ month
    → month ≤ 12
    → month_days year month + day < year_length year
    → (out : ℕ × ℕ) × (month_loop fuel year month day ≡ some out)
      × MonthEnd year (month_days year month + day) out
unfolding month_loop
month_loop-MonthEnd zero year month day count lo hi inside = absurd (omega arith)
month_loop-MonthEnd (suc fuel) year month day count lo hi inside =
    let (n, has, step) = month_step year month lo (omega arith) in
    elim (Bool-cases (ltb day n)) [
      | inl e ↦ (
        (month, day),
        rw (has, month_loop) (rw e),
        record {
          from = lo;
          to = omega arith;
          length = n;
          has_length = has;
          within = ground arith;
          total_days = refl;
        },
      )
      | inr e ↦
          let more : n ≤ day = ground arith in
          let early : (month == 12) ≡ false = ground arith in
          let next : month_days year month + n ≡ month_days year (month + 1) = rw early at step in
          let (out, ran, end) =
            month_loop-MonthEnd fuel year (month + 1) (day - n) (omega arith) (omega arith)
              (ground arith) (omega arith) in
          (
            out,
            rw (has, month_loop) (rw e ran),
            record {
              from = end.from;
              to = end.to;
              length = end.length;
              has_length = end.has_length;
              within = end.within;
              total_days = end.total_days ∙ omega arith;
            },
          )
    ]

-- A later year, or month, begins no earlier than this one ends.
pub year_days_mono :
    (k year : ℕ) → 1970 ≤ year → year_days year + year_length year ≤ year_days (year + 1 + k)
year_days_mono zero year h = rw add-zero (omega (arith, year_days-suc year h))
year_days_mono (suc k) year h =
    let later : year + 1 + suc k ≡ year + 1 + k + 1 = omega arith in
    rw later (omega (arith, year_days_mono k year h, year_days-suc (year + 1 + k) (omega arith)))

pub month_days_mono :
    (k year month n : ℕ)
    → 1 ≤ month
    → month + 1 + k ≤ 12
    → nbofdayin year month ≡ some n
    → month_days year month + n ≤ month_days year (month + 1 + k)
month_days_mono zero year month n lo hi has =
    let (n', has', step) = month_step year month lo (omega arith) in rw add-zero (ground arith)
month_days_mono (suc k) year month n lo hi has =
    let later : month + 1 + suc k ≡ month + 1 + k + 1 = omega arith in
    let (n', has', step) = month_step year (month + 1 + k) (omega arith) (omega arith) in
    rw later (ground (arith, month_days_mono k year month n lo (omega arith) has))

pub year_days_1970 : year_days 1970 ≡ 0
unfolding year_days
year_days_1970 = refl

pub month_days-january : (year : ℕ) → month_days year 1 ≡ 0
unfolding month_days
month_days-january year = refl

-- A month ends within its year.
pub month_fits :
    (year month n : ℕ)
    → 1 ≤ month
    → month ≤ 12
    → nbofdayin year month ≡ some n
    → month_days year month + n ≤ year_length year
month_fits year month n lo hi has = ground (
  arith,
  month_step year month lo hi,
  month_days_mono (11 - month) year month n lo,
  ap (month_days year) {x = month + 1 + (11 - month)} {y = 12},
  month_step year 12,
)
