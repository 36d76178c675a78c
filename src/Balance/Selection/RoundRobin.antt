-- ===== src/Balance/Selection/RoundRobin.antt =====
-- `RoundRobin` of umay/src/balance/selection.rs.
use umay.Base.{ℕ, ◌+◌, ◌%◌, ◌^◌, Option, none, List, length, get_elem?, ◌==◌, if◌then◌else◌}
use umay.Balance.Backend.{Backend}

pub record RoundRobin : Type 0 where
  pub index : ℕ

unfoldable pub default : RoundRobin
default = record { index = 0 }

-- `AtomicUsize::fetch_add(1)` wraps around.
abbrev pub fetch_add : ℕ → ℕ
fetch_add i = (i + 1) % 2 ^ 64

unfoldable pub select : RoundRobin → List Backend → RoundRobin × Option Backend
select s backends =
    let len = length backends in
    if len == 0
    then (s, none)
    else (record { index = fetch_add s.index }, get_elem? backends (s.index % len))
