-- ===== src/Schedules/Reconcile/Laws.antt =====
-- What the reconciler makes of the flag, and which of an operator's choices it respects.
use rebooter_droids.Base.{
  ℕ, ◌≤◌, String, Bool, true, false, not, ◌&&◌, ◌||◌, Option, none, some, ◌≡◌, inl, inr, refl,
  arith, List, Bool-cases, if◌then◌else◌,
}
use rebooter_droids.Base.Table.{Table}
use rebooter_droids.Base.Json.{codes}
use rebooter_droids.Schedules.Types.{Schedule}
use rebooter_droids.Schedules.Flags.{
  Flag, maintenance_mode_details, is_maintenance_mode_active, set_maintenance_mode, cap_reason,
  is_own_reason,
}
use rebooter_droids.Schedules.Reconcile.{
  active_window_start, overrode, is_scheduled, flip, reconcile_maintenance_flag,
}

-- The flag that the windows ask for.
abbrev pub wanted : Option Flag → Option ℕ → Bool
wanted flag (some start) =
    is_maintenance_mode_active flag
    || not (overrode start (maintenance_mode_details flag).operator_override_at)
wanted flag none =
    is_maintenance_mode_active flag && not (is_scheduled (maintenance_mode_details flag).reason)

flip-wanted :
    (now : ℕ) (flag : Option Flag) (w : Option ℕ)
    → is_maintenance_mode_active (flip now flag w) ≡ wanted flag w
unfolding set_maintenance_mode
flip-wanted now flag (some start) = elim (Bool-cases (is_maintenance_mode_active flag)) [
  | inl on ↦ ground (arith, on)
  | inr off ↦ ground (arith, off)
]
flip-wanted now flag none = elim (Bool-cases (is_maintenance_mode_active flag)) [
  | inl on ↦ ground (arith, on)
  | inr off ↦ ground (arith, off)
]

-- After a reconciliation the flag is on exactly where it is wanted: in a window, where it was on
-- before or the operator has not overridden it since the window's start; outside all windows, where
-- it was on for another reason than a schedule.
pub reconcile-wanted :
    (now : ℕ) (schedules : Table Schedule) (flag : Option Flag)
    → is_maintenance_mode_active (reconcile_maintenance_flag now schedules flag)
      ≡ wanted flag (active_window_start now schedules)
unfolding reconcile_maintenance_flag
reconcile-wanted now schedules flag = flip-wanted now flag (active_window_start now schedules)

-- A write that turns its own test off is made once.
if_idem :
    {A : Type 0} (test : A → Bool) (x y : A)
    → test y ≡ false
    → (if test (if test x then y else x) then y else (if test x then y else x))
      ≡ (if test x then y else x)
if_idem test x y off = elim (Bool-cases (test x)) [
  | inl yes_ ↦ rw (yes_, off) refl
  | inr no_ ↦ rw (no_, no_) refl
]

flip_idem :
    (now : ℕ) (flag : Option Flag) (w : Option ℕ) → flip now (flip now flag w) w ≡ flip now flag w
unfolding set_maintenance_mode
flip_idem now flag (some start) =
    if_idem
      (λ f.
        not (is_maintenance_mode_active f)
        && not (overrode start (maintenance_mode_details f).operator_override_at))
      flag _ refl
flip_idem now flag none =
    if_idem (λ f. is_maintenance_mode_active f && is_scheduled (maintenance_mode_details f).reason)
      flag _ refl

-- A second reconciliation at the same instant changes nothing.
pub reconcile_idem :
    (now : ℕ) (schedules : Table Schedule) (flag : Option Flag)
    → let once = reconcile_maintenance_flag now schedules flag in
      reconcile_maintenance_flag now schedules once ≡ once
unfolding reconcile_maintenance_flag
reconcile_idem now schedules flag = flip_idem now flag (active_window_start now schedules)

module _ (t now start : ℕ) (user : Option String) (schedules : Table Schedule)
    (in_window : active_window_start now schedules ≡ some start) where
  -- Where an operator switched the flag at `t`, for a reason that is not one of the schedules' own,
  -- a reconciliation in a window that had started by then leaves it as it is.
  pub reconcile-override :
      (on : Bool) (reason : Option (List ℕ))
      → start ≤ t
      → is_own_reason (cap_reason reason) ≡ false
      → reconcile_maintenance_flag now schedules (some (set_maintenance_mode t on user reason))
        ≡ some (set_maintenance_mode t on user reason)
  unfolding reconcile_maintenance_flag
  reconcile-override on reason l o = rw in_window (ground (arith, o))

  -- An operator who switches maintenance off and types the reason "schedule" is overruled: the next
  -- reconciliation in the window switches it on again.
  pub reconcile-mistaken :
      let flag = set_maintenance_mode t false user (some (codes "schedule")) in
      is_maintenance_mode_active (reconcile_maintenance_flag now schedules (some flag)) ≡ true
  unfolding reconcile_maintenance_flag
  reconcile-mistaken = rw in_window refl
