-- ===== src/Announcements/Script.antt =====
-- `parse_op_return_script` of crates/types/src/announcements/mod.rs, over the `bitcoin` crate's
-- scripts, which are a parameter.
use lrc.Common.{
  ℕ, Bool, List, Option, [], bytes_eq, get_elem?, if◌then◌else◌, leb, length, some, take, true,
  ◌&&◌, ◌-◌, ◌==◌, ◌∷◌, ◌≡◌,
}
use lrc.Outcome.{◌>>◌, Result, err, guard, map_err, ok, ok_or, ◌>>=◌}

-- `bitcoin::blockdata::script::Instruction`
pub data Instruction : Type 0 where
  op : ℕ → Instruction
  push_bytes : List ℕ → Instruction

-- The operations of `Script` and `Builder` that the announcements use. `instructions` is `none`
-- where the iterator meets a script error.
pub record Scripts : Type 0 where
  pub is_op_return : List ℕ → Bool
  pub instructions : List ℕ → Option (List Instruction)
  -- `Builder::new().push_opcode(OP_RETURN).push_slice(bytes).into_script()`
  pub op_return_push : List ℕ → List ℕ
  pub is_op_return-op_return_push : (bs : List ℕ) → is_op_return (op_return_push bs) ≡ true
  -- OP_RETURN is 0x6a.
  pub instructions-op_return_push :
      (bs : List ℕ) → instructions (op_return_push bs) ≡ some (op 0x6a ∷ push_bytes bs ∷ [])

abbrev pub announcement_prefix : List ℕ
announcement_prefix = 76 ∷ 82 ∷ 67 ∷ 50 ∷ 48 ∷ []

abbrev pub announcement_minimal_length : ℕ
announcement_minimal_length = 7

abbrev pub announcement_instruction_number : ℕ
announcement_instruction_number = 3

-- `InvaliOpReturnData` keeps the text of the error; the model keeps the error.
pub data ParseOpReturnError (E : Type 0) : Type 0 where
  invalid_instructions_number : ℕ → ParseOpReturnError E
  no_op_return : ParseOpReturnError E
  invalid_instruction : ℕ → ParseOpReturnError E
  script_error : ParseOpReturnError E
  is_not_announcement : ParseOpReturnError E
  invalid_op_return_data : E → ParseOpReturnError E

unfoldable pub is_announcement : List ℕ → Bool
is_announcement src =
    leb announcement_minimal_length (length src) && bytes_eq (take 5 src) announcement_prefix

-- OP_PUSHBYTES_32 is 0x20.
unfoldable pub instruction_into_opcode : Instruction → ℕ
instruction_into_opcode (op c) = c
instruction_into_opcode (push_bytes bs) = 0x20

unfoldable pub parse_instruction :
    {E T : Type 0} → (List ℕ → Result E T) → Instruction → Result (ParseOpReturnError E) T
parse_instruction parse_fn (push_bytes bs) =
    if is_announcement bs
    then map_err invalid_op_return_data (parse_fn bs)
    else err is_not_announcement
parse_instruction parse_fn (op c) = err (invalid_instruction (instruction_into_opcode (op c)))

unfoldable pub parse_op_return_script :
    {E T : Type 0} → Scripts → (List ℕ → Result E T) → List ℕ → Result (ParseOpReturnError E) T
unfolding parse_instruction
parse_op_return_script scripts parse_fn script = do
  guard (scripts.is_op_return script) no_op_return
  instructions ← ok_or (scripts.instructions script) script_error
  guard (length instructions == announcement_instruction_number - 1)
      (invalid_instructions_number (length instructions))
  inst ← ok_or (get_elem? instructions 1) script_error
  parse_instruction parse_fn inst

-- What is pushed behind `OP_RETURN` is what the parsing function gets.
pub parse_op_return_script-op_return_push :
    {E T : Type 0} (scripts : Scripts) (parse_fn : List ℕ → Result E T) (bs : List ℕ) (t : T)
    → is_announcement bs ≡ true
    → parse_fn bs ≡ ok t
    → parse_op_return_script scripts parse_fn (scripts.op_return_push bs) ≡ ok t
unfolding parse_op_return_script
parse_op_return_script-op_return_push scripts parse_fn bs t h e =
    rw (scripts.is_op_return-op_return_push bs, scripts.instructions-op_return_push bs, h, e)
