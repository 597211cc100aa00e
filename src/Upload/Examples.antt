-- ===== src/Upload/Examples.antt =====
-- Tests of the upload, and the theorems about it at a ring of three with one finished data.
use embedded_middle.Prelude.{
  ℤ, em_error, length, ◌==◌, if◌then◌else◌, ℕ, ◌+◌, ◌*◌, ◌<◌, ◌≡◌, refl, arith, none, some, List,
  [], ◌∷◌, ◌++◌, em_success,
}
use embedded_middle.Bytes.{Bytes}
use embedded_middle.Queue.Sample.{bump}
use embedded_middle.Ring.{Ring}
use embedded_middle.Upload.{Upload, Uldata, Part, add_uldata, sendbuf}
use embedded_middle.Upload.Posted.{sendbuf_lem}
use embedded_middle.Upload.Sending.{
  IsCollecting, finished, open_at, add_uldata_lem, add_uldata-last,
}

abbrev ring : ℕ → Ring
ring used = record {
  block_size = 72;
  override_mode = 1;
  num_max = 3;
  num_used = used;
  head_ptr = used;
  tail_ptr = 0;
  block_ptr = λ i. 4096 + 72 * i;
  block_ptr_at = 1000;
  rawdata = 4096;
}

abbrev log_data : ℕ → Uldata
log_data p = record {
  data_name = 108 ∷ 111 ∷ 103 ∷ [];
  data_type = 1;
  data_ver = 2;
  data_num = 0;
  buf = record { buf_capacity = 64; data_size = 10; data_ptr = some (p + 1000000); bytes = λ i. 7 };
}

abbrev upload : ℕ → Upload
upload used = record {
  server_url = [];
  uldata_name = none;
  uldata_ver = 1;
  uldata_type = 2;
  uldata_buf_capacity = 64;
  uldata = some (4096 + 72 * used);
  rb_uldata = ring used;
  num_sendbuf = used;
  max_sendbuf = 3;
  sendbuf_at = 2000;
  sendbuf = λ i. none;
  hc_buf = record { buf_capacity = 64; data_size = 0; data_ptr = none; bytes = λ i. 0 };
  mem = log_data;
}

upload-IsCollecting : (used : ℕ) → used < 3 → IsCollecting (upload used)
upload-IsCollecting used h = record {
  ring = record {
    size_pos = omega arith;
    max_pos = omega arith;
    max_le = omega arith;
    room = omega arith;
    used_le = omega arith;
    tail_lt = omega arith;
    head_at = omega (arith, h);
    block_at = λ i l. refl;
  };
  refuses = refl;
  places = refl;
  count = refl;
  room = h;
  place = refl;
}

abbrev garbage : Bytes
garbage i = 9

add_uldata_lem_example :
    (ul' : Upload) × (h' : ℕ) × (add_uldata bump garbage (upload 1) 9000
      ≡ some (em_success, ul', h'))
    × (finished ul' ≡ finished (upload 1) ++ (log_data 4168 ∷ []))
    × ((ul'.mem (open_at ul')).buf.data_size ≡ 0)
    × IsCollecting ul'
add_uldata_lem_example =
    add_uldata_lem bump garbage (upload 1) 9000 (upload-IsCollecting 1 (omega arith)) (omega arith)

add_uldata-last_example : add_uldata bump garbage (upload 2) 9000 ≡ none
add_uldata-last_example =
    add_uldata-last bump garbage (upload 2) 9000 (upload-IsCollecting 2 (omega arith)) refl

-- The server takes one part.
abbrev post_one : List Part → ℤ
post_one parts = if length parts == 1 then em_success else em_error

sendbuf_lem_example :
    (ul' : Upload) × (sendbuf post_one (upload 1) ≡ some (em_success, ul'))
    × (finished ul' ≡ [])
    × (ul'.mem (open_at ul') ≡ log_data 4168)
    × IsCollecting ul'
sendbuf_lem_example =
    sendbuf_lem post_one (upload 1) (upload-IsCollecting 1 (omega arith)) (omega arith) refl
