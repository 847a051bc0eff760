-- ===== src/Selector/Clock.antt =====
-- common/ControllerSelector.cpp: the arithmetic of time points.
use developer_resources.Prelude.{ℕ, ◌+◌, ◌-◌, ◌≤◌, ◌<◌, ◌≡◌, true, ltb, arith}
use developer_resources.Selector.{
  elapsed, before_deadline, left_of_deadline, time_point_min, heartbeat_deadline,
}

-- For a time point that is not after `now`, and `now` below 2^63, the test on the 64-bit difference
-- is whether less than three seconds have passed.
pub before_deadline-elapsed :
    (now last : ℕ)
    → last ≤ now
    → now < time_point_min
    → before_deadline (elapsed now last) ≡ ltb (now - last) heartbeat_deadline
unfolding before_deadline elapsed
before_deadline-elapsed now last past small = ground arith

-- The difference to `TimePoint::min()` overflows to a negative duration, which is always less than
-- the deadline: a controller never heard of counts as one heard of just now.
pub before_deadline-min :
    (now : ℕ) → now < time_point_min → before_deadline (elapsed now time_point_min) ≡ true
unfolding before_deadline elapsed
before_deadline-min now small = ground arith

-- For such a controller the deadline is put off by more than 2^63 - now nanoseconds.
pub left_of_deadline-min :
    (now : ℕ)
    → now < time_point_min
    → left_of_deadline (elapsed now time_point_min) ≡ heartbeat_deadline + (time_point_min - now)
unfolding left_of_deadline elapsed
left_of_deadline-min now small = ground arith

-- Otherwise the deadline falls three seconds after the last heartbeat.
pub left_of_deadline-elapsed :
    (now last : ℕ)
    → last ≤ now
    → now < time_point_min
    → now - last < heartbeat_deadline
    → now + left_of_deadline (elapsed now last) ≡ last + heartbeat_deadline
unfolding left_of_deadline elapsed
left_of_deadline-elapsed now last past small recent = ground arith
