-- ===== src/Upload/Posted.antt =====
-- What em_upload_sendbuf posts, and what it leaves.
use native.Mathlib.Decide.{ℕ_discrete}
use embedded_middle.Prelude.{
  ℕ, zero, suc, ◌+◌, ◌-◌, ◌%◌, ◌<◌, ◌≤◌, ◌≡◌, ◌≢◌, refl, ap, ap₂, subst, false, some-inj, sym, ◌∙◌,
  arith, Option, none, some, List, [], map, ℤ, slice, update, update_ne, update_self, em_success,
  em_error,
}
use embedded_middle.Prelude.Int.{eqb_ℤ}
use embedded_middle.Ring.{Ring, get_dataptr_tail, delete_taildata}
use embedded_middle.Ring.Valid.{IsValid}
use embedded_middle.Ring.Contents.{
  nth, contents, block-ne_head, deleted, deleted-IsValid, delete_taildata-room,
}
use embedded_middle.Ring.Access.{tail-some}
use embedded_middle.Upload.{
  Upload, Part, part_of, and_part, parts_from, fill_sendbuf, destroy_at, destroy_sendbuf, sent,
  sendbuf,
}
use embedded_middle.Upload.Sending.{IsCollecting, finished, open_at}

abbrev block_at : Ring → ℕ → ℕ
block_at rb k = rb.block_ptr ((rb.tail_ptr + k) % rb.num_max)

-- The pointers from `i` on, for `n` of them.
abbrev pointers : (ℕ → Option ℕ) → Ring → ℕ → ℕ → ℕ → Option ℕ
pointers old rb zero i = old
pointers old rb (suc n) i = pointers (update old i (get_dataptr_tail rb i)) rb n (i + 1)

fill_sendbuf-pointers :
    (n i : ℕ) (ul : Upload)
    → fill_sendbuf n i ul ≡ record ul { sendbuf = pointers ul.sendbuf ul.rb_uldata n i }
unfolding fill_sendbuf
fill_sendbuf-pointers zero i ul = refl
fill_sendbuf-pointers (suc n) i ul = fill_sendbuf-pointers n (i + 1) _

pointers-below :
    (old : ℕ → Option ℕ) (rb : Ring) (n i k : ℕ) → k < i → pointers old rb n i k ≡ old k
pointers-below old rb zero i k h = refl
pointers-below old rb (suc n) i k h =
    pointers-below (update old i (get_dataptr_tail rb i)) rb n (i + 1) k (omega (arith, h))
    ∙ update_ne old i k (get_dataptr_tail rb i) (omega (arith, h))

pointers-at :
    (old : ℕ → Option ℕ) (rb : Ring) (n i k : ℕ)
    → i ≤ k
    → k < i + n
    → pointers old rb n i k ≡ get_dataptr_tail rb k
pointers-at old rb zero i k l h = absurd (omega (arith, l, h))
pointers-at old rb (suc n) i k l h = elim (ℕ_discrete k i) [
  | yes e ↦ rw e (
      pointers-below (update old i (get_dataptr_tail rb i)) rb n (i + 1) i (omega arith)
      ∙ update_self old i (get_dataptr_tail rb i))
  | no ne ↦
      pointers-at (update old i (get_dataptr_tail rb i)) rb n (i + 1) k (omega (arith, l, ne))
        (omega (arith, h))
]

parts_from-slice :
    (n i : ℕ) (ul : Upload)
    → ((k : ℕ) → i ≤ k → k < i + n → ul.sendbuf k ≡ some (block_at ul.rb_uldata k))
    → parts_from n i ul ≡ some (map part_of (slice (nth ul.rb_uldata ul.mem) i n))
unfolding parts_from and_part
parts_from-slice zero i ul h = refl
parts_from-slice (suc n) i ul h =
    rw
      (
        h i (omega arith) (omega arith),
        parts_from-slice n (i + 1) ul (λ k l u. h k (omega (arith, l)) (omega (arith, u))),
      )
      refl

-- Two uploads that differ in the data at other places than `p` at most.
record IsSameBut (p : ℕ) (ul ul' : Upload) : Type 0 where
  kept : ul'.mem p ≡ ul.mem p
  rb_kept : ul'.rb_uldata ≡ ul.rb_uldata
  num_kept : ul'.num_sendbuf ≡ ul.num_sendbuf
  max_kept : ul'.max_sendbuf ≡ ul.max_sendbuf
  place_kept : ul'.uldata ≡ ul.uldata
  pointers_kept : ul'.sendbuf ≡ ul.sendbuf

destroy_at-IsSameBut :
    (p : ℕ) (ul : Upload) (o : Option ℕ) → o ≢ some p → IsSameBut p ul (destroy_at ul o)
unfolding destroy_at
destroy_at-IsSameBut p ul none h = record {
  kept = refl;
  rb_kept = refl;
  num_kept = refl;
  max_kept = refl;
  place_kept = refl;
  pointers_kept = refl;
}
destroy_at-IsSameBut p ul (some q) h = record {
  kept = update_ne ul.mem q p _ (λ e. h (ap some (sym e)));
  rb_kept = refl;
  num_kept = refl;
  max_kept = refl;
  place_kept = refl;
  pointers_kept = refl;
}

destroy_sendbuf-IsSameBut :
    (p n i : ℕ) (ul : Upload)
    → ((k : ℕ) → i ≤ k → k < i + n → ul.sendbuf k ≢ some p)
    → IsSameBut p ul (destroy_sendbuf n i ul)
unfolding destroy_sendbuf
destroy_sendbuf-IsSameBut p zero i ul h = record {
  kept = refl;
  rb_kept = refl;
  num_kept = refl;
  max_kept = refl;
  place_kept = refl;
  pointers_kept = refl;
}
destroy_sendbuf-IsSameBut p (suc n) i ul h =
    let a = destroy_at-IsSameBut p ul (ul.sendbuf i) (h i (omega arith) (omega arith)) in
    let b = destroy_sendbuf-IsSameBut p n (i + 1) (destroy_at ul (ul.sendbuf i)) (λ k l u e.
      h k (omega (arith, l)) (omega (arith, u)) (ap (λ s. s k) (sym a.pointers_kept) ∙ e)) in
    record {
      kept = b.kept ∙ a.kept;
      rb_kept = b.rb_kept ∙ a.rb_kept;
      num_kept = b.num_kept ∙ a.num_kept;
      max_kept = b.max_kept ∙ a.max_kept;
      place_kept = b.place_kept ∙ a.place_kept;
      pointers_kept = b.pointers_kept ∙ a.pointers_kept;
    }

module _ (post_multipart : List Part → ℤ) (ul : Upload) (c : IsCollecting ul) where
  abbrev rb : Ring
  rb = ul.rb_uldata

  abbrev filled : Upload
  filled = record ul { sendbuf = pointers ul.sendbuf rb ul.num_sendbuf 0 }

  filled-block_at : (k : ℕ) → k < ul.num_sendbuf → filled.sendbuf k ≡ some (block_at rb k)
  filled-block_at k h =
      pointers-at ul.sendbuf rb ul.num_sendbuf 0 k (omega arith) (omega (arith, h))
      ∙ tail-some c.ring k (omega (arith, h, c.count))

  sendbuf-sent :
      sendbuf post_multipart ul ≡ sent post_multipart filled (some (map part_of (finished ul)))
  unfolding sendbuf
  sendbuf-sent =
      rw
        (
          fill_sendbuf-pointers ul.num_sendbuf 0 ul,
          parts_from-slice ul.num_sendbuf 0 filled (λ k l u. filled-block_at k (omega (arith, u))),
          c.count,
        )
        refl

  -- Where the post fails, em_upload_sendbuf returns EM_ERROR and no data is lost.
  pub sendbuf_fails :
      eqb_ℤ (post_multipart (map part_of (finished ul))) em_success ≡ false
      → (ul' : Upload) × (sendbuf post_multipart ul ≡ some (em_error, ul'))
        × (finished ul' ≡ finished ul)
        × IsCollecting ul'
  unfolding sent
  sendbuf_fails failed = (
    filled,
    sendbuf-sent ∙ rw failed refl,
    refl,
    record {
      ring = c.ring;
      refuses = c.refuses;
      places = c.places;
      count = c.count;
      room = c.room;
      place = c.place;
    },
  )

  open-ne : (k : ℕ) → k < ul.num_sendbuf → filled.sendbuf k ≢ some (open_at ul)
  open-ne k h e =
      block-ne_head ul.mem c.ring k (omega (arith, c.places, c.count, c.room))
        (omega (arith, h, c.count)) (some-inj (sym (filled-block_at k h) ∙ e))

  -- em_upload_sendbuf posts the finished data, oldest first, in one request; where that succeeds it
  -- returns 0 with no finished data left, and goes on collecting the same data.
  pub sendbuf_lem :
      0 < ul.num_sendbuf
      → post_multipart (map part_of (finished ul)) ≡ em_success
      → (ul' : Upload) × (sendbuf post_multipart ul ≡ some (em_success, ul'))
        × (finished ul' ≡ [])
        × (ul'.mem (open_at ul') ≡ ul.mem (open_at ul))
        × IsCollecting ul'
  unfolding sent
  sendbuf_lem some_data posted =
      let n : ℕ = ul.num_sendbuf in
      let d : Upload = destroy_sendbuf n 0 filled in
      let k =
        destroy_sendbuf-IsSameBut (open_at ul) n 0 filled (λ k l u. open-ne k (omega (arith, u))) in
      let full : n ≤ rb.num_used = omega (arith, c.count) in
      let e : (delete_taildata d.rb_uldata d.num_sendbuf).1 ≡ deleted rb n =
        ap₂ (λ r m. (delete_taildata r m).1) k.rb_kept k.num_kept
        ∙ ap (λ (q : ℤ × Ring). q.1) (delete_taildata-room rb n (omega (arith, some_data)) full) in
      let empty : rb.num_used - n ≡ 0 = omega (arith, c.count) in
      (
        record d { rb_uldata = (delete_taildata d.rb_uldata d.num_sendbuf).1; num_sendbuf = 0 },
        sendbuf-sent ∙ rw posted refl,
        ap (λ (r : Ring). contents r d.mem) e ∙ ap (slice (nth (deleted rb n) d.mem) 0) empty,
        ap (λ (r : Ring). d.mem (r.block_ptr r.head_ptr)) e ∙ k.kept,
        record {
          ring = subst IsValid (sym e) (deleted-IsValid n c.ring (omega (arith, some_data)) full);
          refuses = ap (λ (r : Ring). r.override_mode) e ∙ c.refuses;
          places = ap (λ (r : Ring). r.num_max) e ∙ c.places ∙ sym k.max_kept;
          count = ap (λ (r : Ring). r.num_used) e ∙ empty;
          room = omega (arith, c.room, k.max_kept);
          place = k.place_kept ∙ c.place ∙ sym (ap (λ (r : Ring). some (r.block_ptr r.head_ptr)) e);
        },
      )
