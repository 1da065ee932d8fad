-- ===== src/Proto/Durations.antt =====
-- A duration keeps its value when it is split into seconds and nanoseconds.
use temporal_cpp.Prelude.{◌+◌, ◌*◌, ◌<◌, ◌≡◌, ◌⊎◌, arith}
use temporal_cpp.Prelude.Int.{ℤ, pos, negsuc, pos_part, neg_part}
use temporal_cpp.Proto.{to_proto_duration, nanos_per_second}

-- The seconds and nanoseconds add up to the duration, positive and negative parts apart; the
-- nanoseconds stay below one second on either side, so that they fit an int32; and a part that is
-- positive never stands beside one that is negative.
pub to_proto_duration-exact :
    (d : ℤ)
    → let p = to_proto_duration d in
      (pos_part p.seconds * nanos_per_second + pos_part p.nanos ≡ pos_part d)
      × (neg_part p.seconds * nanos_per_second + neg_part p.nanos ≡ neg_part d)
      × (pos_part p.nanos < nanos_per_second)
      × (neg_part p.nanos < nanos_per_second)
      × ((pos_part p.seconds + pos_part p.nanos ≡ 0) ⊎ (neg_part p.seconds + neg_part p.nanos ≡ 0))
unfolding to_proto_duration
to_proto_duration-exact (pos n) = ground arith
to_proto_duration-exact (negsuc n) = ground arith
