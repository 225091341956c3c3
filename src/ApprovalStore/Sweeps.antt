-- ===== src/ApprovalStore/Sweeps.antt =====
-- The sweeps of `ApprovalStore`, `expire_past` and `forget_lapsed`, and `pending`. A loop that pops
-- a heap takes as many rounds of fuel as the heap has entries: what it pushes back is not due.
use sayfirst_control_plane.Common.{
  ℕ, zero, suc, true, false, not, Option, none, some, List, [], ◌∷◌, leb, ltb, if◌then◌else◌,
  length, ok, select, map, pair_keyed, text_keyed,
}
use sayfirst_control_plane.Common.Dict.{lookup}
use sayfirst_control_plane.Common.Heap.{push}
use sayfirst_control_plane.Common.Text.{sorted}
use sayfirst_control_plane.Approval.{Approval, Key, key_of, is_pending}
use sayfirst_control_plane.ApprovalStore.Monad.{
  Store, Action, pure, gets, lift, ◌>>=◌, ◌>>◌, modify,
}
use sayfirst_control_plane.ApprovalStore.{keep, index_lapse, is_of_no_further_use, drop_record}
use sayfirst_control_plane.ApprovalStore.Acts.{ended_unread}

abbrev pub cons_some : Option Approval → List Approval → List Approval
cons_some none others = others
cons_some (some a) others = a ∷ others

-- The end of one overdue wait.
unfoldable pub expire_record : Key → Approval → Action (Option Approval)
expire_record key kept = do
  expired_wait ← keep key (ended_unread kept)
  index_lapse key expired_wait
  pure (some expired_wait)

-- What `expire_past` does with the entry that it popped, by the record that it names.
unfoldable pub expire_kept : ℕ → Key → Option Approval → Action (Option Approval)
expire_kept now key none = pure none
expire_kept now key (some kept) =
    if not (is_pending kept.state)
    then pure none
    else if ltb now kept.deadline
    then modify (λ s. record s { due = push kept.deadline key s.due }) >> pure none
    else expire_record key kept

unfoldable pub expire_entry : ℕ → Key → Action (Option Approval)
expire_entry now key = do kept ← gets (λ s. lookup key s.by_reference); expire_kept now key kept

-- The loop of `expire_past`.
unfoldable pub expire_loop : ℕ → ℕ → Action (List Approval)
expire_loop zero now s = (ok [], s)
expire_loop (suc fuel) now s = elim s.due [
  | [] ↦ (ok [], s)
  | (t, key) ∷ rest ↦ elim (leb t now) [
    | false ↦ (ok [], s)
    | true ↦
        (do
          ended ← expire_entry now key
          others ← expire_loop fuel now
          pure (cons_some ended others))
          (record s { due = rest })
  ]
]

-- `expire_past`
unfoldable pub expire_past : ℕ → Action (List Approval)
expire_past now s = (do ended ← expire_loop (length s.due) now; pure (sorted key_of ended)) s

-- What `forget_lapsed` does with the entry that it popped.
unfoldable pub forget_kept : ℕ → Key → Option Approval → Action (Option Approval)
forget_kept now key none = pure none
forget_kept now key (some kept) = do
  over ← lift (is_of_no_further_use kept now)
  if over
      then (do drop_record key kept.question; pure (some kept))
      else (do index_lapse key kept; pure none)

unfoldable pub forget_entry : ℕ → Key → Action (Option Approval)
forget_entry now key = do kept ← gets (λ s. lookup key s.by_reference); forget_kept now key kept

-- The loop of `forget_lapsed`.
unfoldable pub forget_loop : ℕ → ℕ → Action (List Approval)
forget_loop zero now s = (ok [], s)
forget_loop (suc fuel) now s = elim s.lapsing [
  | [] ↦ (ok [], s)
  | (t, key) ∷ rest ↦ elim (leb t now) [
    | false ↦ (ok [], s)
    | true ↦
        (do
          forgotten ← forget_entry now key
          others ← forget_loop fuel now
          pure (cons_some forgotten others))
          (record s { lapsing = rest })
  ]
]

-- `forget_lapsed`
unfoldable pub forget_lapsed : ℕ → Action (List Approval)
forget_lapsed now s =
    (do forgotten ← forget_loop (length s.lapsing) now; pure (sorted key_of forgotten)) s

-- `pending`
unfoldable pub pending_waits : Store → List Approval
pending_waits s = sorted key_of (select (λ a. is_pending a.state) (map (λ e. e.1) s.by_reference))
