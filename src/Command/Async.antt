-- ===== src/Command/Async.antt =====
-- A command line that begins with "async" goes through the queue to the loop in the background.
use embedded_middle.Prelude.{
  ℕ, zero, suc, ◌+◌, ◌≤◌, ◌<◌, ◌≡◌, ◌≢◌, refl, ap, ap₂, ◌∙◌, arith, true, some, List, [], ◌∷◌, ◌++◌,
  ℤ, length, em_success, em_error, em_no_wait, lt→ltb, ne→==,
}
use embedded_middle.Bytes.{Bytes, memcpy, strncmp_from}
use embedded_middle.Queue.{Queue, enqueue, dequeue}
use embedded_middle.Queue.Contents.{datum, contents}
use embedded_middle.Queue.Calls.{IsIdle}
use embedded_middle.Queue.Flow.{enqueue_room, dequeue-front}
use embedded_middle.Command.{
  Cmdmng, string_bytes, string_at, async_cmdname, buf_length, word_num_max, is_async, read_line,
  exec_args, exec_words, exec_string, queue_sent, queue_taken, bg_words, bg_line, bg_round,
  bg_timeout,
}
use embedded_middle.Command.Words.{line, AreWords, read_line-line}

abbrev pub HasNoNul : List ℕ → Type 0
HasNoNul [] = Unit
HasNoNul (c ∷ cs) = (c ≢ 0) × HasNoNul cs

-- Bytes that begin with those of a string are that string.
string_at-bytes :
    (n i : ℕ) (cs : List ℕ) (bytes : Bytes)
    → length cs < n
    → HasNoNul cs
    → ((k : ℕ) → k ≤ length cs → bytes (i + k) ≡ string_bytes cs k)
    → string_at n i bytes ≡ cs
unfolding string_at string_bytes
string_at-bytes zero i cs bytes l h same = absurd (omega arith)
string_at-bytes (suc n) i [] bytes l h same =
    let ended : bytes i ≡ 0 = ap bytes {x = i} {y = i + 0} (omega arith) ∙ same 0 (omega arith) in
    rw ended refl
string_at-bytes (suc n) i (c ∷ cs) bytes l h same =
    let first : bytes i ≡ c = ap bytes {x = i} {y = i + 0} (omega arith) ∙ same 0 (omega arith) in
    let rest : string_at n (i + 1) bytes ≡ cs =
      string_at-bytes n (i + 1) cs bytes (omega arith) h.1 (λ k a.
        ap bytes {x = i + 1 + k} {y = i + suc k} (omega arith) ∙ same (suc k) (omega arith)) in
    rw (first, ne→== c 0 h.0, rest) refl

-- A string through a block of the queue and into the buffer of the loop.
string_at-copied :
    (cs : List ℕ) (buf : Bytes)
    → length cs < buf_length
    → HasNoNul cs
    → string_at buf_length 0 (memcpy buf (datum buf_length (string_bytes cs)) buf_length) ≡ cs
unfolding memcpy
string_at-copied cs buf l h =
    string_at-bytes buf_length 0 cs (memcpy buf (datum buf_length (string_bytes cs)) buf_length) l h
      (λ k a.
        rw (lt→ltb (0 + k) buf_length (omega arith))
          (ap (string_bytes cs) {x = 0 + k} {y = k} (omega arith)))

is_async-async : is_async async_cmdname ≡ true
unfolding is_async strncmp_from string_bytes
is_async-async = refl

module _ (run : ℕ → List (List ℕ) → Cmdmng → ℤ × Cmdmng) (w : List ℕ) (ws : List (List ℕ))
    (words : AreWords (async_cmdname ∷ w ∷ ws)) (few : length (w ∷ ws) < word_num_max) where
  abbrev cmd_line : List ℕ
  cmd_line = line async_cmdname (w ∷ ws)

  words_read : read_line cmd_line ≡ async_cmdname ∷ w ∷ ws
  words_read = read_line-line async_cmdname (w ∷ ws) few words.0 words.1

  words_sent :
      (cm : Cmdmng) (qu : Queue)
      → enqueue cm.qu_cmd (string_bytes cmd_line) em_no_wait true ≡ some (em_success, qu)
      → exec_words run cm cmd_line (async_cmdname ∷ w ∷ ws) ≡ (em_error, record cm { qu_cmd = qu })
  unfolding exec_words queue_sent
  words_sent cm qu e =
      rw (is_async-async, lt→ltb 1 (length (async_cmdname ∷ w ∷ ws)) (omega arith), e) refl

  sent :
      (cm : Cmdmng) (qu : Queue)
      → enqueue cm.qu_cmd (string_bytes cmd_line) em_no_wait true ≡ some (em_success, qu)
      → exec_string run cm cmd_line ≡ (em_error, record cm { qu_cmd = qu })
  unfolding exec_string
  sent cm qu e = ap (exec_words run cm cmd_line) words_read ∙ words_sent cm qu e

  taken :
      (cm : Cmdmng) (qu : Queue) (input_buf bytes : Bytes)
      → dequeue cm.qu_cmd input_buf bg_timeout true ≡ some (em_success, bytes, qu)
      → string_at buf_length 0 bytes ≡ cmd_line
      → bg_round run input_buf cm ≡ (bytes, (exec_args run (record cm { qu_cmd = qu }) (w ∷ ws)).1)
  unfolding bg_round bg_line bg_words queue_taken
  taken cm qu input_buf bytes e string = rw (e, queue_taken, bg_line, string, words_read) refl

-- em_cmd_exec_string on a line with "async" and more words puts the line into an empty queue and returns
-- EM_ERROR; the next round of em_cmd_start_bg takes it out and calls em_cmd_exec_args with the
-- words behind the first, on a manager with the same commands and an empty queue.
pub async_executed :
    (run : ℕ → List (List ℕ) → Cmdmng → ℤ × Cmdmng) (cm : Cmdmng) (w : List ℕ) (ws : List (List ℕ))
    (input_buf : Bytes)
    → IsIdle cm.qu_cmd
    → contents cm.qu_cmd ≡ []
    → 0 < cm.qu_cmd.num_max
    → cm.qu_cmd.block_size ≡ buf_length
    → AreWords (async_cmdname ∷ w ∷ ws)
    → length (w ∷ ws) < word_num_max
    → length (line async_cmdname (w ∷ ws)) < buf_length
    → HasNoNul (line async_cmdname (w ∷ ws))
    → (cm₁ cm₂ : Cmdmng) × (buf : Bytes) × (exec_string run cm (line async_cmdname (w ∷ ws))
        ≡ (em_error, cm₁))
      × (bg_round run input_buf cm₁ ≡ (buf, (exec_args run cm₂ (w ∷ ws)).1))
      × (contents cm₂.qu_cmd ≡ [])
      × IsIdle cm₂.qu_cmd
      × (cm₂.dm_cmd ≡ cm.dm_cmd)
      × (cm₂.is_running ≡ cm.is_running)
async_executed run cm w ws input_buf idle empty room size words few short no_nul =
    let cmd : List ℕ = line async_cmdname (w ∷ ws) in
    let (qu₁, put_in, at_end, same_size, idle₁) =
      enqueue_room (string_bytes cmd) em_no_wait idle (omega (arith, ap length empty, room)) in
    let whole : qu₁.block_size ≡ buf_length = same_size ∙ size in
    let front : contents qu₁ ≡ datum buf_length (string_bytes cmd) ∷ [] =
      at_end ∙ ap₂ (λ q n. q ++ (datum n (string_bytes cmd) ∷ [])) empty size in
    let (qu₂, out, left, idle₂) =
      dequeue-front (datum buf_length (string_bytes cmd)) [] input_buf bg_timeout idle₁ front in
    let bytes : Bytes = memcpy input_buf (datum buf_length (string_bytes cmd)) buf_length in
    (
      record cm { qu_cmd = qu₁ },
      record cm { qu_cmd = qu₂ },
      bytes,
      sent run w ws words few cm qu₁ put_in,
      taken run w ws words few (record cm { qu_cmd = qu₁ }) qu₂ input_buf bytes
          (out
            ∙ ap
                (λ n.
                  some (em_success, memcpy input_buf (datum buf_length (string_bytes cmd)) n, qu₂))
                whole)
          (string_at-copied cmd input_buf short no_nul),
      left,
      idle₂,
      refl,
      refl,
    )
