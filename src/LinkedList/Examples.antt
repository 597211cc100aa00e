-- ===== src/LinkedList/Examples.antt =====
-- Tests of em_list.c, and the theorems about it at a list of two items in a pool of three blocks.
use embedded_middle.Prelude.{
  ℕ, ◌+◌, ◌*◌, ◌<◌, ◌≤◌, ◌≡◌, ◌⊎◌, refl, arith, false, ◌==◌, if◌then◌else◌, none, some, [], ◌∷◌,
  ◌++◌, em_success, em_error,
}
use embedded_middle.LinkedList.{
  LinkedList, create, add, remove_at, remove_item, walk, unlink_forward, unlink_backward,
}
use embedded_middle.LinkedList.Chain.{IsValid, items, collect, create_lem}
use embedded_middle.LinkedList.Added.{add_lem}
use embedded_middle.LinkedList.Removed.{remove_nth, remove_at_lem}

-- The item at the address `p` holds the pointer `p`.
abbrev two : LinkedList
two = record {
  mp = record {
    block_size = 24;
    num_max = 3;
    num_used = 2;
    block_ptr = λ i. i;
    block = λ i. record { index = i; index_ptr = i; data_ptr = 4096 + 24 * i };
    data_ptr = λ i. 4096 + 24 * i;
    block_ptr_at = 1000;
    block_at = 2000;
    data_ptr_at = 3000;
    rawdata = 4096;
    sem = 1;
    has_free_func = false;
  };
  first = some 4096;
  last = some 4120;
  count = 2;
  data_at = λ p. p;
  next_at = λ p. if p == 4096 then some 4120 else none;
  back_at = λ p. if p == 4120 then some 4096 else none;
}

two-IsValid : IsValid two
two-IsValid = record {
  addresses = λ i. 4096 + 24 * i;
  blocks = λ i. i;
  chain = record {
    pool = record {
      size_pos = omega arith;
      room = omega arith;
      used_le = omega arith;
      ptr_lt = λ i h. h;
      idx_lt = λ i h. h;
      idx_of_ptr = λ i h. refl;
      ptr_of_idx = λ i h. refl;
      index_self = λ i h. refl;
      data_at = λ i h. refl;
      data_cached = λ i h. refl;
      sem_free = refl;
    };
    counted = refl;
    used = refl;
    first_at = refl;
    last_at = refl;
    next_of = λ i h. ground arith;
    back_of = λ i h. ground arith;
    block_of = λ i h. (refl, (omega arith, h));
    distinct = λ i j h l e. omega arith;
  };
}

holds : items two ≡ 4096 ∷ 4120 ∷ []
unfolding items collect
holds = refl

first_removed : items (remove_at two 0).1 ≡ 4120 ∷ []
unfolding items collect remove_at remove_item walk unlink_forward unlink_backward
first_removed = refl

new_is_empty :
    ((create (λ (size h : ℕ). (h, h + size)) two 5 4096).0 ≡ em_success)
    × IsValid (create (λ (size h : ℕ). (h, h + size)) two 5 4096).1
    × (items (create (λ (size h : ℕ). (h, h + size)) two 5 4096).1 ≡ [])
new_is_empty = create_lem (λ size h. (h, h + size)) two 5 4096 (omega arith) (omega arith)

add_example :
    let (ret, li') = add two 7 in
    ((ret ≡ em_success) × (items li' ≡ items two ++ (7 ∷ [])) × IsValid li')
    ⊎ ((◌≡◌ {A = ℕ} 2 3) × (ret ≡ em_error) × (li' ≡ two))
add_example = add_lem 7 two-IsValid

remove_at_example :
    let (ret, li') = remove_at two 1 in
    ((1 < 2) × (ret ≡ em_success) × (items li' ≡ remove_nth 1 (items two)) × IsValid li')
    ⊎ ((2 ≤ 1) × (ret ≡ em_error) × (li' ≡ two))
remove_at_example = remove_at_lem 1 two-IsValid
