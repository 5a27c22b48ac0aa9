-- ===== src/Telemetry/Counter.antt =====
-- internal/master/runtime.go: `applyCounter` and `clampSignedInt32`; the traffic fields of
-- `instance` in internal/master/types.go, three for each of the four directions; what
-- `startInstanceLocked` (internal/master/instance.go) and the action `reset` of
-- `handlePatchInstance` (internal/master/rest.go) do to them.
pub mod Tally
use open_ctrl.Base.{
  ℕ, ◌+◌, ◌-◌, ◌%◌, ltb, leb, if◌then◌else◌, max_uint64, max_int32, uint64_mod, add64, sub64, ℤ,
  pos, negsuc,
}

-- One direction of traffic: TCPRX, tcpRXBase and tcpRXReset, all uint64.
pub record Meter : Type 0 where
  pub total : ℕ
  pub base : ℕ
  pub reset : ℕ

-- The new values of `*destination` and `*reset`.
unfoldable pub apply_counter : ℕ → ℕ → ℕ → ℕ × ℕ
apply_counter base reset value =
    let reset' : ℕ = if leb reset value then reset else 0 in
    let delta : ℕ = if leb reset value then value - reset else value in
    (if ltb (max_uint64 - base) delta then max_uint64 else base + delta, reset')

-- applyCounter(&inst.TCPRX, inst.tcpRXBase, &inst.tcpRXReset, value)
unfoldable pub sample : ℕ → Meter → Meter
unfolding apply_counter
sample value m = record m {
  total = (apply_counter m.base m.reset value).0;
  reset = (apply_counter m.base m.reset value).1;
}

-- A new process starts: its counter begins at 0.
unfoldable pub begin_run : Meter → Meter
begin_run m = record m { base = m.total; reset = 0 }

-- The action `reset`, with the wrap-around of uint64.
unfoldable pub clear : Meter → Meter
clear m = record { total = 0; base = 0; reset = add64 m.reset (sub64 m.total m.base) }

unfoldable pub clamp_signed_int32 : ℤ → ℕ
clamp_signed_int32 (pos n) = if ltb max_int32 n then max_int32 else n
clamp_signed_int32 (negsuc n) = 0
