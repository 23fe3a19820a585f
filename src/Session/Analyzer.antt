-- ===== src/Session/Analyzer.antt =====
-- recording_session.cpp: `StreamAnalyzer`, which estimates the frame rate from the time stamps.
pub mod Sound
pub mod Median
use ivckolpak.Prelude.{
  ℕ, zero, suc, ◌+◌, ◌/◌, ◌≤◌, ◌<◌, ◌≡◌, refl, Bool, true, false, ◌&&◌, ◌||◌, List, [], ◌∷◌, ◌++◌,
  Option, none, some, arith, if◌then◌else◌, length, get_elem?, All, All-append, Bool-cases, inl,
  inr,
}
use ivckolpak.Prelude.Bytes.{is_empty}
use ivckolpak.Prelude.Int.{
  ℤ, pos, negsuc, ◌-ℤ◌, ◌*ℤ◌, ltb_ℤ, leb_ℤ, eqb_ℤ, is_pos, pos_part, neg_part, ◌≤ℤ◌,
}
use ivckolpak.Prelude.Double.{Double, ltb_double, zero_double, FloatOps}
use ivckolpak.Session.Packet.{AvPacket, nopts}

-- `AVRational`
pub record Rational : Type 0 where
  pub num : ℤ
  pub den : ℤ

pub record StreamAnalyzer : Type 0 where
  pub first_pts : ℤ
  pub last_pts : ℤ
  pub total_frames : ℕ
  pub pts_diffs : List ℤ
  pub detected_fps : Rational
  pub time_base : Rational

-- `StreamAnalyzer{}`
abbrev pub fresh : StreamAnalyzer
fresh = record {
  first_pts = nopts;
  last_pts = nopts;
  total_frames = 0;
  pts_diffs = [];
  detected_fps = record { num = pos 0; den = pos 1 };
  time_base = record { num = pos 1; den = pos 90000 };
}

-- `diff > 0 && diff < 1000000`
is_step : ℤ → Bool
is_step d = is_pos d && ltb_ℤ d (pos 1000000)

keep_step : ℤ → List ℤ → List ℤ
unfolding is_step
keep_step d diffs = if is_step d then diffs ++ d ∷ [] else diffs

-- The difference is kept where there was a time stamp before, and this one is later.
add_diff : ℤ → ℤ → List ℤ → List ℤ
unfolding ◌-ℤ◌ keep_step
add_diff pts last diffs =
    if eqb_ℤ last nopts
    then diffs
    else if ltb_ℤ last pts
    then keep_step (pts -ℤ last) diffs
    else diffs

analyze_live : AvPacket → StreamAnalyzer → StreamAnalyzer
unfolding add_diff
analyze_live p a = if eqb_ℤ p.pts nopts then a else record a {
  first_pts = if eqb_ℤ a.first_pts nopts then p.pts else a.first_pts;
  pts_diffs = add_diff p.pts a.last_pts a.pts_diffs;
  last_pts = p.pts;
  total_frames = a.total_frames + 1;
}

unfoldable pub analyze_packet : Option AvPacket → StreamAnalyzer → StreamAnalyzer
unfolding analyze_live
analyze_packet none a = a
analyze_packet (some p) a = analyze_live p a

pub insert_sorted : ℤ → List ℤ → List ℤ
insert_sorted x [] = x ∷ []
insert_sorted x (y ∷ ys) = if leb_ℤ x y then x ∷ y ∷ ys else y ∷ insert_sorted x ys

-- `std::sort` on integers
pub sort : List ℤ → List ℤ
unfolding insert_sorted
sort [] = []
sort (x ∷ xs) = insert_sorted x (sort xs)

-- `pts_diffs[pts_diffs.size() / 2]`; the index is below the size where the list is not empty.
pub median : List ℤ → ℤ
median sorted = elim (get_elem? sorted (length sorted / 2)) [ none ↦ pos 0 | some d ↦ d ]

-- 1.0, 15.0, 20.0, 25.0, 30.0 and 1000.0
abbrev one : Double
one = 0x3ff0_0000_0000_0000

abbrev fifteen : Double
fifteen = 0x402e_0000_0000_0000

abbrev twenty : Double
twenty = 0x4034_0000_0000_0000

abbrev twenty_five : Double
twenty_five = 0x4039_0000_0000_0000

abbrev thirty : Double
thirty = 0x403e_0000_0000_0000

abbrev thousand : Double
thousand = 0x408f_4000_0000_0000

module _ (ops : FloatOps) where
  near : Double → Double → Bool
  near fps target = ltb_double (ops.abs (ops.sub fps target)) one

  snap : Double → Double
  unfolding near
  snap fps =
      if near fps twenty_five
      then twenty_five
      else if near fps thirty
      then thirty
      else if near fps fifteen
      then fifteen
      else if near fps twenty
      then twenty
      else fps

  -- The rate that a median difference stands for.
  unfoldable pub rate_of : Rational → ℤ → Rational
  unfolding snap ◌*ℤ◌
  rate_of base d =
      let fps = snap (ops.div (ops.of_int base.den) (ops.of_int (d *ℤ base.num))) in
      record { num = ops.to_int (ops.mul fps thousand); den = pos 1000 }

  unfoldable pub finalize : StreamAnalyzer → StreamAnalyzer
  unfolding sort median rate_of
  finalize a =
      if is_empty a.pts_diffs || (eqb_ℤ a.first_pts nopts || eqb_ℤ a.last_pts nopts)
      then a
      else (let sorted = sort a.pts_diffs in
          let d = median sorted in
          if is_pos d
          then record a { pts_diffs = sorted; detected_fps = rate_of a.time_base d }
          else record a { pts_diffs = sorted })

-- `av_q2d` is the library's.
unfoldable pub get_fps : (Rational → Double) → StreamAnalyzer → Double
get_fps q2d a = if eqb_ℤ a.detected_fps.num (pos 0) then zero_double else q2d a.detected_fps
