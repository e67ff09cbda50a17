-- ===== src/Commands/Queue/Rows.antt =====
-- The fan-out of `enqueue_for_group`: the commands that it reports as created stand in the table.
use rebooter_droids.Base.{
  ℕ, suc, ◌<◌, ◌≤◌, ◌+◌, length, String, inl, inr, some, ◌≡◌, ◌⊎◌, refl, sym, ◌∙◌, arith, eq_iff,
  List, [], ◌∷◌, ◌++◌, In, Bool-cases, Option-cases, false, subst, ◌==◌,
}
use rebooter_droids.Base.Table.{Table, get, put, get-put}
use rebooter_droids.Base.Json.{Fields}
use rebooter_droids.Commands.Types.{CommandType, Device, Command, Store, pending}
use rebooter_droids.Commands.Queue.{
  Request, new_command, is_locked, hold_off, FanOut, fan_out_one, fan_out,
}

In-snoc : {A : Type 0} (x y : A) (xs : List A) → In x (xs ++ y ∷ []) → In x xs ⊎ (x ≡ y)
In-snoc x y [] (inl e) = inr e
In-snoc x y [] (inr later) = elim later [ ]
In-snoc x y (z ∷ xs) (inl e) = inl (inl e)
In-snoc x y (z ∷ xs) (inr later) = elim (In-snoc x y xs later) [
  | inl i ↦ inl (inr i)
  | inr e ↦ inr e
]

-- A row reported as created: it stands in the table, pending, of the call's type and the group.
pub record Standing (group_id : String) (cmd_type : CommandType) (s : Store)
    (row : String × Command) : Type 0 where
  pub row_there : get row.0 s.commands ≡ some row.1
  pub same_type : row.1.type ≡ cmd_type
  pub is_pending : row.1.status ≡ pending
  pub for_group : row.1.group_id ≡ some group_id

module _ (now : ℕ) (ids : ℕ → String) (group_id : String) (payload : Fields) (r : Request)
    (total : ℕ) (distinct : (m n : ℕ) → m < total → n < total → ids m ≡ ids n → m ≡ n) where
  -- Every created row has one of the ids drawn before the n-th, and stands.
  abbrev pub Drawn : ℕ → FanOut → Type 0
  Drawn n f =
      (row : String × Command)
      → In row f.created
      → ((m : ℕ) × ((m < n) × (row.0 ≡ ids m))) × Standing group_id r.cmd_type f.store row

  Drawn-skipped :
      (n : ℕ) (skipped : List String) (f : FanOut)
      → Drawn n f
      → Drawn (suc n) (record f { skipped = skipped })
  Drawn-skipped n skipped f before row i =
      let ((m, (below, own)), s) = before row i in ((m, (omega (arith, below), own)), s)

  -- The id that the round draws is none of those in use.
  Drawn-created :
      (n : ℕ) (d : String) (devices : Table Device) (f : FanOut)
      → n < total
      → Drawn n f
      → let cmd = new_command now d (some group_id) payload r in
        Drawn (suc n) (record f {
          store = record (f.store) {
            devices = devices;
            commands = put (ids n) cmd f.store.commands;
          };
          created = f.created ++ (ids n, cmd) ∷ [];
        })
  Drawn-created n d devices f bound before row i =
      let cmd = new_command now d (some group_id) payload r in
      let found = get-put (ids n) row.0 cmd f.store.commands in
      elim (In-snoc row (ids n, cmd) f.created i) [
        | inl old ↦
            let ((m, (below, own)), s) = before row old in
            let other : (ids n == row.0) ≡ false = elim (Bool-cases (ids n == row.0)) [
              | inl same ↦ absurd (
                  omega (
                    arith,
                    below,
                    distinct n m bound (omega (arith, below, bound))
                        ((eq_iff (ids n) row.0).0 same ∙ own),
                  ))
              | inr e ↦ e
            ] in
            (
              (m, (omega (arith, below), own)),
              record {
                row_there = ground (arith, found, other, s.row_there);
                same_type = s.same_type;
                is_pending = s.is_pending;
                for_group = s.for_group;
              },
            )
        | inr new ↦
            subst
              (λ (x : String × Command).
                ((m : ℕ) × ((m < suc n) × (x.0 ≡ ids m)))
                × Standing group_id r.cmd_type
                    (record (f.store) {
                      devices = devices;
                      commands = put (ids n) cmd f.store.commands;
                    })
                    x)
              (sym new)
              (
                (n, (omega arith, refl)),
                record {
                  row_there =
                      ground (
                        arith,
                        get-put (ids n) (ids n) cmd f.store.commands,
                        eq_iff (ids n) (ids n),
                      );
                  same_type = refl;
                  is_pending = refl;
                  for_group = refl;
                },
              )
      ]

  Drawn-fan_out_one :
      (n : ℕ) (d : String) (f : FanOut)
      → n < total
      → Drawn n f
      → Drawn (suc n) (fan_out_one now (ids n) group_id payload r d f)
  unfolding fan_out_one
  Drawn-fan_out_one n d f bound before = elim (Option-cases (get d f.store.devices)) [
    | inl gone ↦ rw gone (Drawn-skipped n f.skipped f before)
    | inr (target, here) ↦ elim (Bool-cases (is_locked r target)) [
      | inl locked ↦ rw (here, locked) (Drawn-skipped n (f.skipped ++ d ∷ []) f before)
      | inr free ↦
          rw (here, free)
            (Drawn-created n d (put d (hold_off r target) f.store.devices) f bound before)
    ]
  ]

  pub Drawn-fan_out :
      (n : ℕ) (ds : List String) (f : FanOut)
      → n + length ds ≤ total
      → Drawn n f
      → (row : String × Command) → In row (fan_out now ids group_id payload r n ds f).created
      → Standing group_id r.cmd_type (fan_out now ids group_id payload r n ds f).store row
  unfolding fan_out
  Drawn-fan_out n [] f bound drawn = λ row i. (drawn row i).1
  Drawn-fan_out n (d ∷ ds) f bound drawn =
      Drawn-fan_out (suc n) ds (fan_out_one now (ids n) group_id payload r d f)
        (omega (arith, bound)) (Drawn-fan_out_one n d f (omega (arith, bound)) drawn)
