-- ===== src/Commands/Queue/Group.antt =====
-- The fan-out of `enqueue_for_group`: which members get a command and which are skipped.
use mathlib.Core.Path.{fun_ext}
use mathlib.Core.List.{map-append, append_assoc, append-nil}
use rebooter_droids.Base.{
  ℕ, suc, String, Bool, false, not, Option, Option-cases, inl, inr, none, some, ◌≡◌, arith, eq_iff,
  List, [], ◌∷◌, ◌++◌, map, select, if◌then◌else◌, ◌∙◌, ◌<◌, length, sym, Bool-cases, In, ◌&&◌,
  subst,
}
use rebooter_droids.Base.Result.{ok, Result-cases}
use rebooter_droids.Base.Table.{get, get-put}
use rebooter_droids.Base.Json.{Fields}
use rebooter_droids.Commands.Types.{Device, Command, Store, is_power}
use rebooter_droids.Commands.Queue.Rows.{Standing, Drawn-fan_out}
use rebooter_droids.Commands.Payload.{validate_payload}
use rebooter_droids.Commands.Queue.{
  Request, new_command, hold_off, FanOut, fan_out_one, fan_out, members, enqueue_for_group,
}

-- A device that exists and is locked for the request, as it is protected and the command is a power
-- command without override, and one that exists and is not.
abbrev pub locked_row : Request → Option Device → Bool
locked_row r none = false
locked_row r (some d) = is_power r.cmd_type && d.is_protected && not r.override_lockout

abbrev pub unlocked_row : Request → Option Device → Bool
unlocked_row r none = false
unlocked_row r (some d) = not (is_power r.cmd_type && d.is_protected && not r.override_lockout)

abbrev pub locked : Request → Store → String → Bool
locked r s k = locked_row r (get k s.devices)

abbrev pub unlocked : Request → Store → String → Bool
unlocked r s k = unlocked_row r (get k s.devices)

abbrev pub targets : List (String × Command) → List String
targets rows = map (λ row. row.1.device_id) rows

abbrev only : Bool → String → List String
only b k = if b then k ∷ [] else []

joined :
    (p : String → Bool) (xs : List String) (d : String) (ds : List String)
    → (xs ++ only (p d) d) ++ select p ds ≡ xs ++ select p (d ∷ ds)
joined p xs d ds = elim (Bool-cases (p d)) [
  | inl e ↦ rw (e, append_assoc)
  | inr e ↦ rw (e, append-nil)
]

module _ (now : ℕ) (group_id : String) (payload : Fields) (r : Request) where
  -- A round changes the hold-off flag alone, which no lock depends on.
  locks-fan_out_one :
      (id d k : String) (f : FanOut)
      → let f' = fan_out_one now id group_id payload r d f in
        (locked r f'.store k ≡ locked r f.store k) × (unlocked r f'.store k ≡ unlocked r f.store k)
  unfolding fan_out_one
  locks-fan_out_one id d k f = elim (Option-cases (get d f.store.devices)) [
    | inl e ↦ ground (arith, e)
    | inr (t, e) ↦ ground (arith, e, get-put d k (hold_off r t) f.store.devices, eq_iff d k)
  ]

  lists-fan_out_one :
      (id d : String) (f : FanOut)
      → let f' = fan_out_one now id group_id payload r d f in
        (targets f'.created ≡ targets f.created ++ only (unlocked r f.store d) d)
        × (f'.skipped ≡ f.skipped ++ only (locked r f.store d) d)
  unfolding fan_out_one
  lists-fan_out_one id d f = ground (
    arith,
    append-nil (targets f.created),
    append-nil f.skipped,
    map-append (λ (row : String × Command). row.1.device_id) f.created
        ((id, new_command now d (some group_id) payload r) ∷ []),
  )

  fan_out_accounts :
      (ids : ℕ → String) (n : ℕ) (ds : List String) (f : FanOut)
      → let f' = fan_out now ids group_id payload r n ds f in
        (targets f'.created ≡ targets f.created ++ select (unlocked r f.store) ds)
        × (f'.skipped ≡ f.skipped ++ select (locked r f.store) ds)
  unfolding fan_out
  fan_out_accounts ids n [] f = (sym (append-nil _), sym (append-nil _))
  fan_out_accounts ids n (d ∷ ds) f =
      let f' = fan_out_one now (ids n) group_id payload r d f in
      let ih = fan_out_accounts ids (suc n) ds f' in
      let lists = lists-fan_out_one (ids n) d f in
      (
        ih.0
            ∙ rw (lists.0, fun_ext (λ k. (locks-fan_out_one (ids n) d k f).1))
                (joined (unlocked r f.store) (targets f.created) d ds),
        ih.1
            ∙ rw (lists.1, fun_ext (λ k. (locks-fan_out_one (ids n) d k f).0))
                (joined (locked r f.store) f.skipped d ds),
      )

-- A group command that is accepted, where the ids its rounds draw are distinct, creates one command for each member
-- that exists and is not locked, in the order of the membership rows, and skips exactly the members
-- that are locked: those protected, for a power command without override. Each command it reports
-- as created stands in the command table under its id afterwards, pending, with the type of the
-- call, for the group.
pub enqueue_for_group-accounts :
    (now : ℕ) (ids : ℕ → String) (group_id : String) (r : Request) (s : Store) {f : FanOut}
    → ((m n : ℕ)
        → m < length (members group_id s.memberships)
        → n < length (members group_id s.memberships)
        → ids m ≡ ids n
        → m ≡ n)
    → enqueue_for_group now ids group_id r s ≡ ok f
    → ((targets f.created ≡ select (unlocked r s) (members group_id s.memberships))
        × (f.skipped ≡ select (locked r s) (members group_id s.memberships)))
      × ((row : String × Command) → In row f.created → Standing group_id r.cmd_type f.store row)
unfolding enqueue_for_group
enqueue_for_group-accounts now ids group_id r s {f} distinct h =
    elim (Result-cases (validate_payload r.cmd_type r.payload)) [
      | inl (payload, e) ↦
          let r' = record r { set_hold_off = false } in
          let start : FanOut = record { store = s; created = []; skipped = [] } in
          let ds = members group_id s.memberships in
          let same : fan_out now ids group_id payload r' 0 ds start ≡ f = ground (arith, e, h) in
          (
            subst
                (λ (f : FanOut).
                  (targets f.created ≡ select (unlocked r s) ds)
                  × (f.skipped ≡ select (locked r s) ds))
                same (fan_out_accounts now group_id payload r' ids 0 ds start),
            subst
                (λ (f : FanOut).
                  (row : String × Command)
                  → In row f.created
                  → Standing group_id r.cmd_type f.store row)
                same
                (Drawn-fan_out now ids group_id payload r' (length ds) distinct 0 ds start
                  (omega arith) (λ row none_yet. absurd none_yet)),
          )
      | inr (bad, e) ↦ absurd (ground (arith, e))
    ]
