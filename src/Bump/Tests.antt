-- ===== src/Bump/Tests.antt =====
-- A run of the theorem: two cores take 24 and 10 bytes; the exchange of the second one fails once.
use dumboss.Base.{◌-◌, ◌^◌, ◌≡◌, refl, arith}
use dumboss.BitSet.{popcount}
use dumboss.Bump.{
  round, fits, overflow, bad_align, call, load, lose, win, System, core, Reach, start, later,
}

first_fits : round 8192 24 8 0 ≡ fits 0 24
unfolding round popcount
first_fits = refl

too_early : round 8192 10 16 0 ≡ fits 0 10
unfolding round popcount
too_early = refl

second_fits : round 8192 10 16 24 ≡ fits 32 42
unfolding round popcount
second_fits = refl

-- Behind 42 bytes the largest size overflows, and an alignment of 12 fails the assertion.
largest_size : round 8192 (2 ^ 63 - 1) 1 42 ≡ overflow
unfolding round popcount
largest_size = refl

no_power : round 8192 10 12 0 ≡ bad_align
unfolding round popcount
no_power = refl

abbrev two_ranges : (s : System) × Reach 0x4000 8192 s × (s.bump.index ≡ 42)
two_ranges =
    let r0 : Reach 0x4000 8192 _ = later start (core 0 (call 24 8 (omega arith) (omega arith))) in
    let r1 = later r0 (core 1 (call 10 16 (omega arith) (omega arith))) in
    let r2 = later r1 (core 0 load) in
    let r3 = later r2 (core 1 load) in
    let r4 = later r3 (core 0 (win first_fits refl)) in
    let r5 = later r4 (core 1 (lose too_early)) in
    let r6 = later r5 (core 1 (win second_fits refl)) in (_, r6, refl)
