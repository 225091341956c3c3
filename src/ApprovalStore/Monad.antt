-- ===== src/ApprovalStore/Monad.antt =====
-- The state of `ApprovalStore` and its methods' shape: a method answers or raises, and what it
-- wrote before it raised stays written. Each method runs under the store's lock, so it is one step.
use sayfirst_control_plane.Common.{Bool, List, ⊤, Result, ok, err, if◌then◌else◌}
use sayfirst_control_plane.Common.Dict.{Dict}
use sayfirst_control_plane.Common.Heap.{Heap}
use sayfirst_control_plane.Approval.{Approval, Question, Key, Complaint}

pub record Store : Type 0 where
  pub by_reference : Dict Key Approval
  pub by_question : Dict Question (List Key)
  pub due : Heap Key
  pub lapsing : Heap Key

-- `invalid` is a `ValueError` of the record's construction; the other `ValueError`s of the store
-- have a constructor for each message; `key_error`, `not_in_list` and `assertion` are the errors of
-- `d[k]` on a missing key, of `list.remove` and of `assert`.
pub data StoreError : Type 0 where
  invalid : Complaint → StoreError
  unknown already_exists already_resolved already_claimed : StoreError
  opened_published opened_ended published_ended not_abandonable : StoreError
  not_approved release_consumed release_unclaimed already_consumed not_claimed : StoreError
  key_error not_in_list assertion : StoreError

abbrev pub Action : Type 0 → Type 0
Action A = Store → Result StoreError A × Store

module _ {A : Type 0} where
  abbrev pub pure : A → Action A
  pure a s = (ok a, s)

  abbrev pub raise : StoreError → Action A
  raise e s = (err e, s)

  abbrev pub gets : (Store → A) → Action A
  gets f s = (ok (f s), s)

  abbrev pub lift : Result StoreError A → Action A
  lift r s = (r, s)

-- What follows an action, on its answer; an error passes it by.
abbrev pub continue :
    {A B : Type 0} → (A → Action B) → Result StoreError A × Store → Result StoreError B × Store
continue f (ok a, s) = f a s
continue f (err e, s) = (err e, s)

infixl 5 ◌>>=◌ ◌>>◌
abbrev pub ◌>>=◌ : {A B : Type 0} → Action A → (A → Action B) → Action B
◌>>=◌ m f s = continue f (m s)

abbrev pub ◌>>◌ : {A B : Type 0} → Action A → Action B → Action B
m >> k = m >>= λ _. k

abbrev pub raise_if : Bool → StoreError → Action ⊤
raise_if c e s = (if c then err e else ok tt, s)

abbrev pub modify : (Store → Store) → Action ⊤
modify f s = (ok tt, f s)

-- The construction of a record, as an action.
abbrev pub accepted : Result Complaint Approval → Result StoreError Approval
accepted (ok a) = ok a
accepted (err c) = err (invalid c)
