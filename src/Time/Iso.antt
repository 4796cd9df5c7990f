-- ===== src/Time/Iso.antt =====
-- `datetime.isoformat` for the datetimes of `Time`.
use nimly_manager.Base.{
  ℕ, suc, ◌+◌, ◌-◌, ◌*◌, ◌/◌, ◌%◌, Bool, ◌&&◌, ◌||◌, not, Option, none, some, List, [], ◌∷◌, ◌++◌,
  ◌==◌, ltb, if◌then◌else◌,
}
use nimly_manager.Base.Int.{ℤ, pos, negsuc}
use nimly_manager.Text.{Text, text}
use nimly_manager.Text.Number.{show_ℕ, zero_fill}
use nimly_manager.Time.{DateTime, local_time}

-- {n:0wd}
padded : ℕ → ℕ → Text
unfolding show_ℕ zero_fill
padded width n = zero_fill width (show_ℕ n)

pub record Date : Type 0 where
  pub year : ℕ
  pub month : ℕ
  pub day : ℕ

-- The month and day of the n-th day of a year, from 0, by the lengths of the months.
month_day : ℕ → ℕ → ℕ → List ℕ → Date
month_day year month n [] = record { year = year; month = month; day = n + 1 }
month_day year month n (len ∷ lens) =
    let later = month_day year (month + 1) (n - len) lens in
    if ltb n len then record { year = year; month = month; day = n + 1 } else later

month_lengths : Bool → List ℕ
month_lengths leap =
    31 ∷ (if leap then 29 else 28) ∷ 31 ∷ 30 ∷ 31 ∷ 30 ∷ 31 ∷ 31 ∷ 30 ∷ 31 ∷ 30 ∷ 31 ∷ []

-- date.fromordinal(n + 1): cycles of 400, 100, 4 and 1 years.
unfoldable pub date_of_day : ℕ → Date
unfolding month_day month_lengths
date_of_day n =
    let n400 = n / 146097 in
    let r400 = n % 146097 in
    let n100 = r400 / 36524 in
    let r100 = r400 % 36524 in
    let n4 = r100 / 1461 in
    let r4 = r100 % 1461 in
    let n1 = r4 / 365 in
    let year = n400 * 400 + n100 * 100 + n4 * 4 + n1 + 1 in
    let leap = n1 == 3 && (not (n4 == 24) || n100 == 3) in
    let walked = month_day year 1 (r4 % 365) (month_lengths leap) in
    if n1 == 4 || n100 == 4 then record { year = year - 1; month = 12; day = 31 } else walked

offset_text : ℕ → Text
unfolding padded
offset_text s =
    padded 2 (s / 3600)
    ++ (text ":"
        ++ (padded 2 (s / 60 % 60) ++ (if s % 60 == 0 then [] else text ":" ++ padded 2 (s % 60))))

zone_text : Option ℤ → Text
unfolding offset_text
zone_text none = []
zone_text (some (pos s)) = text "+" ++ offset_text s
zone_text (some (negsuc s)) = text "-" ++ offset_text (suc s)

unfoldable pub isoformat : DateTime → Text
unfolding date_of_day zone_text padded local_time
isoformat d =
    let t = local_time d in
    let date = date_of_day (t / 86400000000) in
    let s = t / 1000000 % 86400 in
    let micros = t % 1000000 in
    padded 4 date.year
    ++ (text "-"
        ++ (padded 2 date.month
            ++ (text "-"
                ++ (padded 2 date.day
                    ++ (text "T"
                        ++ (padded 2 (s / 3600)
                            ++ (text ":"
                                ++ (padded 2 (s / 60 % 60)
                                    ++ (text ":"
                                        ++ (padded 2 (s % 60)
                                            ++ ((if micros == 0
                                                  then []
                                                  else text "." ++ padded 6 micros)
                                                ++ zone_text d.offset)))))))))))
