-- ===== src/Upload.antt =====
-- src/em_upload.c: data collected in buffers of a ring and posted together. `none` as the result of a call
-- is an access through NULL. What em_httpc_post_multipart answers is an argument. A name fits in its
-- 32 characters.
pub mod Sending
pub mod Posted
mod Examples
use embedded_middle.Prelude.{
  ℕ, zero, suc, ◌+◌, ◌*◌, if◌then◌else◌, leb, Option, none, some, List, [], ◌∷◌, map, ℤ, update,
  em_success, em_error,
}
use embedded_middle.Prelude.Int.{eqb_ℤ}
use embedded_middle.Bytes.{Bytes}
use embedded_middle.Buf.{Buf}
use embedded_middle.Buf
use embedded_middle.Ring.{
  Ring, em_ringbuf_error, get_dataptr_new, add_newdata, get_dataptr_tail, delete_taildata,
}
use embedded_middle.Ring

-- `em_uldata_t`.
pub record Uldata : Type 0 where
  pub data_name : List ℕ
  pub data_type : ℕ
  pub data_ver : ℕ
  pub data_num : ℕ
  pub buf : Buf

-- Where pointers have eight bytes.
abbrev pub sizeof_uldata : ℕ
sizeof_uldata = 72

-- `em_httppart_t`.
pub record Part : Type 0 where
  pub part_name : List ℕ
  pub part_type : ℕ
  pub part_data : Bytes
  pub data_length : ℕ

-- `em_upload_t`, of `hc` its buffer, and without the two functions. `mem` is the data at an address.
pub record Upload : Type 0 where
  pub server_url : List ℕ
  pub uldata_name : Option (List ℕ)
  pub uldata_ver : ℕ
  pub uldata_type : ℕ
  pub uldata_buf_capacity : ℕ
  pub uldata : Option ℕ
  pub rb_uldata : Ring
  pub num_sendbuf : ℕ
  pub max_sendbuf : ℕ
  pub sendbuf_at : ℕ
  pub sendbuf : ℕ → Option ℕ
  pub hc_buf : Buf
  pub mem : ℕ → Uldata

-- "NoName" for NULL.
name_of : Option (List ℕ) → List ℕ
name_of none = 78 ∷ 111 ∷ 78 ∷ 97 ∷ 109 ∷ 101 ∷ []
name_of (some name) = name

pub uldata_destroy : Uldata → ℤ × Option ℕ × Uldata
uldata_destroy ud =
    let (ret, freed, buf) = Buf.destroy ud.buf in (ret, freed, record ud { buf = buf })

pub uldata_append_buf : Uldata → Bytes → ℕ → ℤ × Uldata
uldata_append_buf ud bytes length =
    let (ret, buf) = Buf.append ud.buf bytes length in (ret, record ud { buf = buf })

pub append_buf : Upload → Bytes → ℕ → Option (ℤ × Upload)
unfolding uldata_append_buf
append_buf ul bytes length = elim ul.uldata [
  | none ↦ none
  | some p ↦
      let (ret, ud) = uldata_append_buf (ul.mem p) bytes length in
      some (ret, record ul { mem = update ul.mem p ud })
]

-- `bytes` is what the memory of a new buffer holds.
module _ {H : Type 0} (alloc_func : ℕ → H → ℕ × H) (bytes : Bytes) where
  unfoldable pub uldata_init : Option (List ℕ) → ℕ → ℕ → ℕ → H → Uldata × H
  unfolding name_of
  uldata_init data_name data_type data_ver buf_capacity h =
      let (_, buf, h') = Buf.init alloc_func buf_capacity bytes h in
      (
        record {
          data_name = name_of data_name;
          data_type = data_type;
          data_ver = data_ver;
          data_num = 0;
          buf = buf;
        },
        h',
      )

  -- The next data, at what em_ring_get_dataptr_new gives. The version and the type stand in each
  -- other's places.
  unfoldable pub start_data : Upload → Option ℕ × Ring → H → Option (Upload × H)
  start_data ul (none, rb) h = none
  start_data ul (some p, rb) h =
      let (ud, h') =
        uldata_init ul.uldata_name ul.uldata_ver ul.uldata_type ul.uldata_buf_capacity h in
      some (record ul { rb_uldata = rb; uldata = some p; mem = update ul.mem p ud }, h')

  unfoldable pub counted : Option (Upload × H) → Option (ℤ × Upload × H)
  counted none = none
  counted (some (ul, h)) = some (em_success, record ul { num_sendbuf = ul.num_sendbuf + 1 }, h)

  unfoldable pub add_uldata : Upload → H → Option (ℤ × Upload × H)
  unfolding start_data counted
  add_uldata ul h =
      if leb ul.max_sendbuf ul.num_sendbuf
      then some (em_error, ul, h)
      else (let rb = (add_newdata ul.rb_uldata).1 in
          counted (start_data (record ul { rb_uldata = rb }) (get_dataptr_new rb) h))

  started : Option (Upload × H) → Option (ℤ × Upload × H)
  started none = none
  started (some (ul, h)) = some (em_success, ul, h)

  -- `ul` is what was there before, and `garbage` what the table of the ring holds.
  pub init :
      (ℕ → ℕ) → Upload → List ℕ → Option (List ℕ) → ℕ → ℕ → ℕ → ℕ → H → Option (ℤ × Upload × H)
  unfolding start_data started
  init garbage ul server_url uldata_name uldata_type uldata_ver uldata_buf_capacity
        uldata_sendbuf_num h =
      let (sendbuf, h₁) = alloc_func (8 * uldata_sendbuf_num) h in
      let (_, hc_buf, h₂) = Buf.init alloc_func (16 * 1024) bytes h₁ in
      let (_, rb, h₃) =
        Ring.create alloc_func garbage sizeof_uldata uldata_sendbuf_num em_ringbuf_error h₂ in
      started (
        start_data
          (record ul {
            server_url = server_url;
            uldata_name = uldata_name;
            uldata_ver = uldata_ver;
            uldata_type = uldata_type;
            uldata_buf_capacity = uldata_buf_capacity;
            rb_uldata = rb;
            num_sendbuf = 0;
            max_sendbuf = uldata_sendbuf_num;
            sendbuf_at = sendbuf;
            hc_buf = hc_buf;
          })
          (get_dataptr_new rb) h₃)

unfoldable pub part_of : Uldata → Part
part_of ud = record {
  part_name = ud.data_name;
  part_type = ud.data_type;
  part_data = ud.buf.bytes;
  data_length = ud.buf.data_size;
}

unfoldable pub and_part : (ℕ → Uldata) → Option ℕ → Option (List Part) → Option (List Part)
unfolding part_of
and_part mem none parts = none
and_part mem (some p) none = none
and_part mem (some p) (some parts) = some (part_of (mem p) ∷ parts)

-- The parts that em_upload_multi makes of the data from `i` on.
unfoldable pub parts_from : ℕ → ℕ → Upload → Option (List Part)
unfolding and_part
parts_from zero i ul = some []
parts_from (suc rounds) i ul = and_part ul.mem (ul.sendbuf i) (parts_from rounds (i + 1) ul)

-- The pointers of the data, oldest first.
unfoldable pub fill_sendbuf : ℕ → ℕ → Upload → Upload
fill_sendbuf zero i ul = ul
fill_sendbuf (suc rounds) i ul =
    fill_sendbuf rounds (i + 1)
      (record ul { sendbuf = update ul.sendbuf i (get_dataptr_tail ul.rb_uldata i) })

unfoldable pub destroy_at : Upload → Option ℕ → Upload
destroy_at ul none = ul
destroy_at ul (some p) = record ul { mem = update ul.mem p (uldata_destroy (ul.mem p)).2 }

-- The buffers of the data are given up; each pointer has been followed before.
unfoldable pub destroy_sendbuf : ℕ → ℕ → Upload → Upload
unfolding destroy_at
destroy_sendbuf zero i ul = ul
destroy_sendbuf (suc rounds) i ul = destroy_sendbuf rounds (i + 1) (destroy_at ul (ul.sendbuf i))

-- The addresses passed to `free_func`, in order; only the newest data is given up.
pub destroy : Upload → Option (ℤ × List (Option ℕ) × Upload)
unfolding uldata_destroy
destroy ul = elim ul.uldata [
  | none ↦ none
  | some p ↦
      let (_, freed, ud) = uldata_destroy (ul.mem p) in
      let (_, hc_freed, hc_buf) = Buf.destroy ul.hc_buf in
      let (_, rb_freed, rb) = Ring.destroy ul.rb_uldata in
      some (
        em_success,
        some ul.sendbuf_at ∷ freed ∷ hc_freed ∷ map some rb_freed,
        record ul { sendbuf_at = 0; mem = update ul.mem p ud; hc_buf = hc_buf; rb_uldata = rb },
      )
]

module _ (post_multipart : List Part → ℤ) where
  pub upload_one : Uldata → ℤ
  unfolding part_of
  upload_one ud = post_multipart (part_of ud ∷ [])

  unfoldable pub sent : Upload → Option (List Part) → Option (ℤ × Upload)
  unfolding destroy_sendbuf
  sent ul none = none
  sent ul (some parts) =
      if eqb_ℤ (post_multipart parts) em_success
      then (let ul' = destroy_sendbuf ul.num_sendbuf 0 ul in
          some (
            em_success,
            record ul' {
              rb_uldata = (delete_taildata ul'.rb_uldata ul'.num_sendbuf).1;
              num_sendbuf = 0;
            },
          ))
      else some (em_error, ul)

  unfoldable pub sendbuf : Upload → Option (ℤ × Upload)
  unfolding fill_sendbuf parts_from sent
  sendbuf ul =
      let ul' = fill_sendbuf ul.num_sendbuf 0 ul in sent ul' (parts_from ul'.num_sendbuf 0 ul')
