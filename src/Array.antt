-- ===== src/Array.antt =====
-- `Array<T>` of onestl/array.hpp over onestl/arrayhelper.cpp, with the checked accesses that it
-- takes from `Span` and `View`. `items` are the elements below `size_`; what lies between the
-- size and the capacity is never read. `granted` says whether `realloc` returned memory.
use onejit.Base.{
  ℕ, ◌+◌, ◌-◌, ◌*◌, ◌≤◌, Bool, true, false, not, ◌&&◌, ◌==◌, ltb, leb, if◌then◌else◌, List, [], ◌∷◌,
  ◌++◌, length, get_or, replicate, take, map, set as list_set,
}

pub record Array (A : Type 0) : Type 0 where
  pub items : List A
  pub cap : ℕ

module _ {A : Type 0} where
  abbrev pub empty : Array A
  empty = record { items = []; cap = 0 }

  unfoldable pub size : Array A → ℕ
  size xs = length xs.items

  -- `View::operator[]`: `zero_value` is `T{}`
  unfoldable pub get : A → Array A → ℕ → A
  get zero_value xs index = get_or xs.items index zero_value

  -- `Span::set`
  unfoldable pub set : Array A → ℕ → A → Array A
  set xs index elem =
      if ltb index (length xs.items) then record xs { items = list_set xs.items index elem } else xs

  -- `Span::fill`
  unfoldable pub fill : Array A → A → Array A
  fill xs value = record xs { items = map (λ _. value) xs.items }

  unfoldable pub clear : Array A → Array A
  clear xs = record xs { items = [] }

  unfoldable pub truncate : Array A → ℕ → Array A
  truncate xs n = if ltb n (length xs.items) then record xs { items = take n xs.items } else xs

  unfoldable pub reserve : Bool → Array A → ℕ → Array A × Bool
  reserve granted xs newcap =
      if leb newcap xs.cap
      then (xs, true)
      else if granted
      then (record xs { cap = newcap }, true)
      else (xs, false)

  -- `ArrayHelper::grow_cap`: the capacity at least doubles, from 10 on
  unfoldable pub grow_cap : Bool → Array A → ℕ → Array A × Bool
  unfolding reserve
  grow_cap granted xs mincap =
      let cap2 = if leb 10 xs.cap then xs.cap * 2 else 10 in
      if leb mincap xs.cap
      then (xs, true)
      else reserve granted xs (if leb cap2 mincap then mincap else cap2)

  -- `ArrayHelper::init`, the constructor's work
  unfoldable pub init : Bool → A → ℕ → Array A × Bool
  init granted zero_value n =
      if not (n == 0) && not granted
      then (empty, false)
      else (record { items = replicate n zero_value; cap = n }, true)

  -- `Array::resize`: a larger size is reached by `grow(n, true)`, which clears the new elements
  unfoldable pub resize : Bool → A → Array A → ℕ → Array A × Bool
  unfolding grow_cap
  resize granted zero_value xs n =
      let (roomy, done) = grow_cap granted xs n in
      if leb n (length xs.items)
      then (record xs { items = take n xs.items }, true)
      else if done
      then (
        record roomy { items = roomy.items ++ replicate (n - length xs.items) zero_value },
        true,
      )
      else (roomy, false)

  unfoldable pub append : Bool → Array A → A → Array A × Bool
  unfolding grow_cap
  append granted xs elem =
      let (roomy, done) = grow_cap granted xs (length xs.items + 1) in
      if done then (record roomy { items = roomy.items ++ elem ∷ [] }, true) else (roomy, false)

  -- `ArrayHelper::dup`
  unfoldable pub dup : Bool → Array A → List A → Array A × Bool
  unfolding grow_cap
  dup granted xs source =
      let (roomy, done) = grow_cap granted xs (length source) in
      if length source == 0
      then (record xs { items = [] }, true)
      else if done
      then (record roomy { items = source }, true)
      else (roomy, false)

  -- The elements fit the capacity.
  pub record IsValid (xs : Array A) : Type 0 where
    pub within : length xs.items ≤ xs.cap
