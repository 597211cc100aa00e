-- ===== src/Upload/Sending.antt =====
-- The data that em_upload collects and sends.
use embedded_middle.Prelude.{
  ℕ, ◌+◌, ◌<◌, ◌≤◌, ◌≡◌, refl, ap, ◌∙◌, arith, none, some, List, [], ◌∷◌, ◌++◌, lt→leb, update,
  update_self, em_success,
}
use embedded_middle.Bytes.{Bytes}
use embedded_middle.Buf
use embedded_middle.Ring.{Ring, em_ringbuf_error}
use embedded_middle.Ring.Valid.{IsValid}
use embedded_middle.Ring.Contents.{
  contents, added, added-IsValid, add_newdata-room, new-room, new-error, written-contents,
  registered-contents,
}
use embedded_middle.Upload.{Upload, Uldata, add_uldata, start_data, counted, uldata_init}

-- The finished data, oldest first, and the place of the data that is being collected.
abbrev pub finished : Upload → List Uldata
finished ul = contents ul.rb_uldata ul.mem

abbrev pub open_at : Upload → ℕ
open_at ul = ul.rb_uldata.block_ptr ul.rb_uldata.head_ptr

-- Data is being collected in the block behind the finished ones.
pub record IsCollecting (ul : Upload) : Type 0 where
  pub ring : IsValid ul.rb_uldata
  pub refuses : ul.rb_uldata.override_mode ≡ em_ringbuf_error
  pub places : ul.rb_uldata.num_max ≡ ul.max_sendbuf
  pub count : ul.rb_uldata.num_used ≡ ul.num_sendbuf
  pub room : ul.num_sendbuf < ul.max_sendbuf
  pub place : ul.uldata ≡ some (open_at ul)

module _ {H : Type 0} (alloc_func : ℕ → H → ℕ × H) (bytes : Bytes) (ul : Upload) (h : H)
    (c : IsCollecting ul) where
  abbrev rb : Ring
  rb = ul.rb_uldata

  room_left : rb.num_used < rb.num_max
  room_left = omega (arith, c.places, c.count, c.room)

  one_more : (added rb).num_used ≡ rb.num_used + 1
  one_more = omega (arith, room_left, c.ring.max_le)

  abbrev next_data : Uldata × H
  next_data =
      uldata_init alloc_func bytes ul.uldata_name ul.uldata_ver ul.uldata_type
        ul.uldata_buf_capacity h

  abbrev next_at : ℕ
  next_at = rb.block_ptr (added rb).head_ptr

  abbrev next : Upload
  next = record ul {
    rb_uldata = added rb;
    uldata = some next_at;
    mem = update ul.mem next_at next_data.0;
    num_sendbuf = ul.num_sendbuf + 1;
  }

  next_empty : next_data.0.buf.data_size ≡ 0
  unfolding uldata_init Buf.init
  next_empty = refl

  -- Where there is room for one more, em_upload_add_uldata puts the data that was being collected behind
  -- the finished data and starts with empty data.
  pub add_uldata_lem :
      ul.num_sendbuf + 1 < ul.max_sendbuf
      → (ul' : Upload) × (h' : H) × (add_uldata alloc_func bytes ul h ≡ some (em_success, ul', h'))
        × (finished ul' ≡ finished ul ++ (ul.mem (open_at ul) ∷ []))
        × ((ul'.mem (open_at ul')).buf.data_size ≡ 0)
        × IsCollecting ul'
  unfolding add_uldata start_data counted
  add_uldata_lem more =
      let v' = added-IsValid c.ring room_left in
      let left : (added rb).num_used < rb.num_max =
        omega (arith, one_more, c.places, c.count, more) in
      (
        next,
        next_data.1,
        rw
            (
              lt→leb ul.max_sendbuf ul.num_sendbuf (omega (arith, more)),
              add_newdata-room rb room_left,
              new-room (added rb) left,
            )
            refl,
        written-contents ul.mem v' next_data.0 left ∙ registered-contents ul.mem c.ring room_left,
        ap (λ (ud : Uldata). ud.buf.data_size) (update_self ul.mem next_at next_data.0)
            ∙ next_empty,
        record {
          ring = v';
          refuses = c.refuses;
          places = c.places;
          count = omega (arith, one_more, c.count);
          room = more;
          place = refl;
        },
      )

  -- In the last place there is no block for the next data, and em_upload_add_uldata writes through NULL.
  pub add_uldata-last :
      ul.num_sendbuf + 1 ≡ ul.max_sendbuf → add_uldata alloc_func bytes ul h ≡ none
  unfolding add_uldata start_data counted
  add_uldata-last last =
      let full : rb.num_max ≤ (added rb).num_used =
        omega (arith, one_more, c.places, c.count, last) in
      rw
        (
          lt→leb ul.max_sendbuf ul.num_sendbuf (omega (arith, last)),
          add_newdata-room rb room_left,
          new-error (added rb) full c.refuses,
        )
        refl
