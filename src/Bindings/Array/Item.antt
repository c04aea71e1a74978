-- ===== src/Bindings/Array/Item.antt =====
-- src/bindings/py_array.c: the methods of an item of an array of mutexes. The flag of the item is in
-- the state of the array.
use posixipc.Prelude.{ℕ, Bool, true, false, Option, some, List, [], if◌then◌else◌}
use posixipc.Os.{Os}
use posixipc.Calls.{Reply}
use posixipc.Mutex
use posixipc.Bindings.Errors.{Raised, Outcome, returned, raised}
use posixipc.Bindings.Run.{Run, give, ◌>>=◌}
use posixipc.Bindings.Acquire.{Value, Key, posixipc_parse_acquire}
use posixipc.Bindings.Array.{ArrayObject, State, parsed, array_release_index}

-- `has_array` says that `item->array` is not NULL, and `index` is the index of the item.
module _ (os : Os) (reply : ArrayObject → Reply Mutex.Call) (have_clocklock : Bool)
    (on_owner_died : Option (State → Bool × State)) (signals : State → Bool × State)
    (has_array : Bool) (index : ℕ) where
  pub item_acquire : ℕ → List Value → List (Key × Value) → Run State (Outcome Bool)
  unfolding parsed
  item_acquire fuel args keys =
      if has_array
      then parsed os reply have_clocklock on_owner_died signals true fuel (returned index)
          (posixipc_parse_acquire args keys)
      else give (raised (some Raised.unbound))

  -- behind `array_release_index`
  pub cleared : Outcome Bool × State → Outcome Bool × State
  cleared (returned b, (a, tr)) = (returned b, (record a { locked = false }, tr))
  cleared (raised e, s) = (raised e, s)

  pub item_release : State → Outcome Bool × State
  unfolding array_release_index cleared
  item_release s =
      if has_array
      then cleared (array_release_index os reply have_clocklock on_owner_died signals true index s)
      else (raised (some Raised.unbound), s)

  pub item_entered : Outcome Bool → Run State (Outcome Bool)
  item_entered (returned false) = give (raised (some Raised.runtime_error))
  item_entered (returned true) = give (returned true)
  item_entered (raised e) = give (raised e)

  pub item_enter : ℕ → Run State (Outcome Bool)
  unfolding item_acquire item_entered
  item_enter fuel = item_acquire fuel [] [] >>= item_entered

  pub item_exit : State → Outcome Bool × State
  unfolding item_release
  item_exit (a, tr) = if a.locked then item_release (a, tr) else (returned true, (a, tr))
