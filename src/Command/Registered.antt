-- ===== src/Command/Registered.antt =====
-- Commands that are registered are found and executed.
use embedded_middle.Prelude.{
  ℕ, ◌+◌, ◌<◌, ◌^◌, ◌≡◌, ◌≢◌, refl, sym, ap, ◌∙◌, inl, inr, arith, Bool-cases, Option, none, some,
  List, ◌∷◌, ℤ, if◌then◌else◌, ne→==, le→leb, lt→ltb, Bool, ap₂, em_success,
}
use embedded_middle.Bytes.{Bytes, memcpy, copy_at}
use embedded_middle.Gdatamng.{
  Datamng, keycmp, add_data, get_data, get_data_ptr, copy_out, em_dmng_key_string,
}
use embedded_middle.Gdatamng.Valid
use embedded_middle.Gdatamng.Find.{keycmp_refl}
use embedded_middle.Gdatamng.Added.{add_data_new, add_data-shape}
use embedded_middle.Idatamng.{key_of, sizeof_ulong}
use embedded_middle.Idatamng.Ids.{of_key-Agree, of_key-key_of}
use embedded_middle.Command.{
  Cmdmng, CmdSetting, sizeof_cmdsetting, cmd_func_offset, name_length_max, string_bytes,
  setting_bytes, register, func_of, func_found, get_func_by_cmdname, exec_args,
}

-- A table of em_cmd_init.
pub record IsCmdTable (dm : Datamng) : Type 0 where
  pub valid : Valid.IsValid dm
  pub strings : dm.key_type ≡ em_dmng_key_string
  pub names : dm.key_size ≡ name_length_max
  pub settings : dm.mp.block_size ≡ sizeof_cmdsetting

-- The function in what em_gdatamng_get_data copies.
abbrev func_in : Option Bytes → ℕ
func_in none = 0
func_in (some bytes) = func_of bytes

nothing : Bytes
nothing i = 0

func_of-memcpy : (dst src : Bytes) → func_of (memcpy dst src sizeof_cmdsetting) ≡ func_of src
unfolding func_of memcpy
func_of-memcpy dst src =
    of_key-Agree sizeof_ulong (λ i. memcpy dst src sizeof_cmdsetting (i + cmd_func_offset))
      (λ i. src (i + cmd_func_offset)) (λ k l. ground arith)

func_found-copy_out :
    (dm : Datamng) (p : Option ℕ)
    → dm.mp.block_size ≡ sizeof_cmdsetting
    → func_found dm p ≡ func_in (copy_out dm nothing p)
unfolding func_found copy_out
func_found-copy_out dm none s = refl
func_found-copy_out dm (some p) s =
    sym (func_of-memcpy nothing (dm.mem p))
    ∙ ap (λ n. func_of (memcpy nothing (dm.mem p) n)) (sym s)

get_func_lem :
    (cm : Cmdmng) (name : List ℕ)
    → cm.dm_cmd.mp.block_size ≡ sizeof_cmdsetting
    → get_func_by_cmdname cm name ≡ func_in (get_data cm.dm_cmd (string_bytes name) nothing)
unfolding get_func_by_cmdname get_data
get_func_lem cm name s =
    func_found-copy_out cm.dm_cmd (get_data_ptr cm.dm_cmd (string_bytes name)) s

copied-func :
    (setting : CmdSetting) (k : ℕ)
    → k < sizeof_ulong
    → setting_bytes setting (k + cmd_func_offset) ≡ key_of setting.cmd_func k
unfolding setting_bytes copy_at
copied-func setting k l =
    rw (le→leb 8 (k + 8) (omega arith), lt→ltb (k + 8) 16 (omega arith))
      (ap (key_of setting.cmd_func) (omega arith))

func_of-setting :
    (setting : CmdSetting)
    → setting.cmd_func < 2 ^ 64
    → func_of (setting_bytes setting) ≡ setting.cmd_func
unfolding func_of setting_bytes copy_at
func_of-setting setting fits =
    of_key-Agree sizeof_ulong (λ i. setting_bytes setting (i + cmd_func_offset))
      (key_of setting.cmd_func) (λ k l. copied-func setting k l)
    ∙ of_key-key_of setting.cmd_func fits

module _ (cm : Cmdmng) (setting : CmdSetting) (t : IsCmdTable cm.dm_cmd)
    (unknown : get_data_ptr cm.dm_cmd (string_bytes setting.cmd_name) ≡ none)
    (room : cm.dm_cmd.mp.num_used < cm.dm_cmd.mp.num_max) where
  abbrev dm' : Datamng
  dm' = (add_data cm.dm_cmd (string_bytes setting.cmd_name) (setting_bytes setting)).1

  unread : get_data cm.dm_cmd (string_bytes setting.cmd_name) nothing ≡ none
  unfolding get_data copy_out
  unread = rw unknown refl

  shape :
      (dm'.mp.block_size ≡ cm.dm_cmd.mp.block_size)
      × (dm'.key_type ≡ cm.dm_cmd.key_type)
      × (dm'.key_size ≡ cm.dm_cmd.key_size)
  shape =
      let s =
        add_data-shape cm.dm_cmd (string_bytes setting.cmd_name) (setting_bytes setting) nothing
          t.valid unread room in
      (s.0, s.1, s.2)

  abbrev same_name : List ℕ → Bool
  same_name name =
      keycmp em_dmng_key_string (string_bytes setting.cmd_name) (string_bytes name) name_length_max

  added_data :
      (name : List ℕ)
      → ((add_data cm.dm_cmd (string_bytes setting.cmd_name) (setting_bytes setting)).0
          ≡ em_success)
        × Valid.IsValid dm'
        × (get_data dm' (string_bytes name) nothing ≡ (
            if same_name name
            then some (memcpy nothing (setting_bytes setting) sizeof_cmdsetting)
            else get_data cm.dm_cmd (string_bytes name) nothing))
  added_data name =
      let r =
        add_data_new cm.dm_cmd (string_bytes setting.cmd_name) (setting_bytes setting)
          (string_bytes name) nothing t.valid unread room in
      (
        r.0,
        r.1,
        r.2
            ∙ ap₂
                (λ b n.
                  if b
                  then some (memcpy nothing (setting_bytes setting) n)
                  else get_data cm.dm_cmd (string_bytes name) nothing)
                (ap₂ (λ k n. keycmp k (string_bytes setting.cmd_name) (string_bytes name) n)
                  t.strings t.names)
                t.settings,
      )

  func_registered :
      (name : List ℕ)
      → setting.cmd_func < 2 ^ 64
      → get_func_by_cmdname (record cm { dm_cmd = dm' }) name
        ≡ (if same_name name then setting.cmd_func else get_func_by_cmdname cm name)
  func_registered name fits =
      get_func_lem (record cm { dm_cmd = dm' }) name (shape.0 ∙ t.settings)
      ∙ ap func_in (added_data name).2
      ∙ elim (Bool-cases (same_name name)) [
        | inl e ↦
            rw e (func_of-memcpy nothing (setting_bytes setting) ∙ func_of-setting setting fits)
        | inr e ↦ rw e (sym (get_func_lem cm name t.settings))
      ]

-- A command with a new name, for which there is room, can be registered. The names with the same first 16
-- characters then have its function, which em_cmd_exec_args calls with the words, and every other
-- name has the function that it had; the table stays one of commands.
pub register_lem :
    (run : ℕ → List (List ℕ) → Cmdmng → ℤ × Cmdmng) (cm : Cmdmng) (setting : CmdSetting)
    (args : List (List ℕ)) (name : List ℕ)
    → IsCmdTable cm.dm_cmd
    → get_data_ptr cm.dm_cmd (string_bytes setting.cmd_name) ≡ none
    → cm.dm_cmd.mp.num_used < cm.dm_cmd.mp.num_max
    → setting.cmd_func ≢ 0
    → setting.cmd_func < 2 ^ 64
    → let (ret, cm') = register cm setting in
      (ret ≡ em_success)
      × (exec_args run cm' (setting.cmd_name ∷ args)
          ≡ run setting.cmd_func (setting.cmd_name ∷ args) cm')
      × (get_func_by_cmdname cm' name ≡ (
          if keycmp em_dmng_key_string
            (string_bytes setting.cmd_name)
            (string_bytes name)
            name_length_max
          then setting.cmd_func
          else get_func_by_cmdname cm name))
      × IsCmdTable cm'.dm_cmd
unfolding register exec_args
register_lem run cm setting args name t unknown room not_null fits =
    let (added, valid, _) = added_data cm setting t unknown room name in
    let (size, kind, names) = shape cm setting t unknown room in
    let own =
      func_registered cm setting t unknown room setting.cmd_name fits
      ∙ ap (λ b. if b then setting.cmd_func else get_func_by_cmdname cm setting.cmd_name)
          (keycmp_refl em_dmng_key_string (string_bytes setting.cmd_name) name_length_max) in
    (
      rw added refl,
      rw (own, ne→== setting.cmd_func 0 not_null) refl,
      func_registered cm setting t unknown room name fits,
      record {
        valid = valid;
        strings = kind ∙ t.strings;
        names = names ∙ t.names;
        settings = size ∙ t.settings;
      },
    )
