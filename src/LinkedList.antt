-- ===== src/LinkedList.antt =====
-- src/em_list.c: a doubly linked list whose items are blocks of a memory pool. A list has no mutex,
-- and its calls are those of one task.
pub mod Chain
pub mod Added
pub mod Removed
mod Examples
use embedded_middle.Prelude.{
  ℕ, zero, suc, ◌+◌, Option, none, some, List, [], ◌∷◌, ℤ, leb, if◌then◌else◌, update, add32, sub32,
  em_success, em_error,
}
use embedded_middle.Prelude.Int.{eqb_ℤ}
use embedded_middle.Mempool.{Mpool, try_alloc_block, free_at}
use embedded_middle.Mempool

-- `em_list_t`, with the fields of the `em_listitem_t` at each address. `none` is NULL.
pub record LinkedList : Type 0 where
  pub mp : Mpool
  pub first : Option ℕ
  pub last : Option ℕ
  pub count : ℕ
  pub data_at : ℕ → ℕ
  pub next_at : ℕ → Option ℕ
  pub back_at : ℕ → Option ℕ

abbrev pub sizeof_listitem : ℕ
sizeof_listitem = 24

-- `li` is what the memory held before. Where the pool is not made, the other fields stay as they were.
pub create : {H : Type 0} → (ℕ → H → ℕ × H) → LinkedList → ℕ → H → ℤ × LinkedList × H
create alloc_func li num_max_item h =
    let (ret, mp, h') = Mempool.create alloc_func li.mp sizeof_listitem num_max_item h in
    if eqb_ℤ ret em_success
    then (em_success, record li { mp = mp; count = 0; first = none; last = none }, h')
    else (em_error, record li { mp = mp }, h')

-- The addresses passed to `free_func`, in order.
pub delete : LinkedList → ℤ × List ℕ × LinkedList
delete li =
    let (ret, freed, mp) = Mempool.destroy li.mp in (em_success, freed, record li { mp = mp })

-- `p->field = v`. With NULL it is undefined in C; `Added` and `Removed` show that it is not done.
pub set_field : (ℕ → Option ℕ) → Option ℕ → Option ℕ → ℕ → Option ℕ
set_field field none v = field
set_field field (some p) v = update field p v

-- The list after `newitem` has been filled, by what `first` is.
link_item : LinkedList → ℕ → ℕ → Option ℕ → LinkedList
unfolding set_field
link_item li newitem x none = record li {
  data_at = update li.data_at newitem x;
  next_at = update li.next_at newitem none;
  back_at = update li.back_at newitem none;
  first = some newitem;
  last = some newitem;
  count = add32 li.count 1;
}
link_item li newitem x (some p) = record li {
  data_at = update li.data_at newitem x;
  next_at = set_field (update li.next_at newitem none) li.last (some newitem);
  back_at = update li.back_at newitem li.last;
  last = some newitem;
  count = add32 li.count 1;
}

add_item : LinkedList → ℕ → Option ℕ × Mpool → ℤ × LinkedList
unfolding link_item
add_item li x (none, mp) = (em_error, record li { mp = mp })
add_item li x (some newitem, mp) =
    (em_success, link_item (record li { mp = mp }) newitem x li.first)

-- `x` is the pointer that is stored.
pub add : LinkedList → ℕ → ℤ × LinkedList
unfolding add_item
add li x = add_item li x (try_alloc_block li.mp)

-- `delitem = delitem->next`, as many times as there are rounds left. With NULL it is undefined in C;
-- `Removed` shows that it is not done.
pub walk : LinkedList → ℕ → Option ℕ → Option ℕ
walk li zero delitem = delitem
walk li (suc rounds) none = none
walk li (suc rounds) (some p) = walk li rounds (li.next_at p)

unlink_forward : LinkedList → ℕ → Option ℕ → LinkedList
unlink_forward li delitem none = record li { first = li.next_at delitem }
unlink_forward li delitem (some p) = record li {
  next_at = update li.next_at p (li.next_at delitem);
}

unlink_backward : LinkedList → ℕ → Option ℕ → LinkedList
unlink_backward li delitem none = record li { last = li.back_at delitem }
unlink_backward li delitem (some p) = record li {
  back_at = update li.back_at p (li.back_at delitem);
}

remove_item : LinkedList → Option ℕ → ℤ × LinkedList
unfolding unlink_forward unlink_backward
remove_item li none = (em_error, li)
remove_item li (some delitem) =
    let li₁ = unlink_forward li delitem (li.back_at delitem) in
    let li₂ = unlink_backward li₁ delitem (li₁.next_at delitem) in
    (em_success, record li₂ { mp = (free_at li₂.mp delitem).1; count = sub32 li₂.count 1 })

pub remove_at : LinkedList → ℕ → ℤ × LinkedList
unfolding remove_item
remove_at li index =
    if leb li.count index then (em_error, li) else remove_item li (walk li index li.first)
