-- ===== src/Resp/Reference/Rest.antt =====
-- What the reader of the protocol leaves is shorter than what it was given.
use redisclient.Base.{
  ℕ, zero, suc, ◌-◌, ◌≤◌, Bool, true, false, [], ◌∷◌, ◌==◌, ltb, length, take, drop, length-drop,
  Bytes, arith, if◌then◌else◌,
}
use redisclient.Base.Int.{ℤ, pos, negsuc}
use redisclient.Value.{Values, nil, bytes_value, error_value, int_value}
use redisclient.Parser.Number.{buf_to_long}
use redisclient.Resp.{is_text}
use redisclient.Resp.Lines.{is_number}
use redisclient.Resp.Reference.{
  Answer, done, wants_more, refused, exhausted, Line, ended, cut, bad, cons_line, take_line,
  take_number, behind_lf, behind_line, end_string, string_of, array_of, behind_item, begin_value,
  read_value, read_items,
}

abbrev pub LeavesAtMost : ℕ → Answer → Type 0
LeavesAtMost k (done v rest) = length rest ≤ k
LeavesAtMost k _ = Unit

abbrev pub LineAtMost : ℕ → Line → Type 0
LineAtMost k (ended text rest) = length rest ≤ k
LineAtMost k _ = Unit

either :
    (k : ℕ) (b : Bool) (x y : Answer)
    → LeavesAtMost k x
    → LeavesAtMost k y
    → LeavesAtMost k (if b then x else y)
either k true x y h w = h
either k false x y h w = w

either_line :
    (k : ℕ) (b : Bool) (x y : Line)
    → LineAtMost k x
    → LineAtMost k y
    → LineAtMost k (if b then x else y)
either_line k true x y h w = h
either_line k false x y h w = w

cons_line-LineAtMost : (k c : ℕ) (x : Line) → LineAtMost k x → LineAtMost (suc k) (cons_line c x)
cons_line-LineAtMost k c (ended text rest) h = omega (arith, h)
cons_line-LineAtMost k c cut h = h
cons_line-LineAtMost k c bad h = h

pub take_line-LineAtMost :
    (good : ℕ → Bool) (text : Bytes) → LineAtMost (length text) (take_line good text)
unfolding take_line
take_line-LineAtMost good [] = tt
take_line-LineAtMost good (c ∷ rest) =
    let later = cons_line c (take_line good rest) in
    either_line (suc (length rest)) (c == b'\r') (ended [] rest) (if good c then later else bad)
      (omega arith)
      (either_line (suc (length rest)) (good c) later bad
        (cons_line-LineAtMost (length rest) c (take_line good rest)
          (take_line-LineAtMost good rest))
        tt)

pub take_number-LineAtMost : (text : Bytes) → LineAtMost (length text) (take_number text)
unfolding take_number
take_number-LineAtMost [] = tt
take_number-LineAtMost (c ∷ rest) =
    either_line (suc (length rest)) (c == b'\r') bad (take_line is_number (c ∷ rest)) tt
      (take_line-LineAtMost is_number (c ∷ rest))

module _ (k : ℕ) where
  abbrev Keeps : (Bytes → Answer) → Type 0
  Keeps next = (behind : Bytes) → length behind ≤ k → LeavesAtMost k (next behind)

  behind_lf-LeavesAtMost :
      (rest : Bytes) (next : Bytes → Answer)
      → length rest ≤ k
      → Keeps next
      → LeavesAtMost k (behind_lf rest next)
  behind_lf-LeavesAtMost [] next h keeps = tt
  behind_lf-LeavesAtMost (c ∷ rest) next h keeps =
      either k (c == b'\n') (next rest) refused (keeps rest (omega (arith, h))) tt

  behind_line-LeavesAtMost :
      (x : Line) (next : Bytes → Bytes → Answer)
      → LineAtMost k x
      → ((text : Bytes) → Keeps (next text))
      → LeavesAtMost k (behind_line x next)
  behind_line-LeavesAtMost (ended text rest) next h keeps =
      behind_lf-LeavesAtMost rest (next text) h (keeps text)
  behind_line-LeavesAtMost cut next h keeps = tt
  behind_line-LeavesAtMost bad next h keeps = tt

  end_string-LeavesAtMost : (s : Bytes) → Keeps (end_string s)
  end_string-LeavesAtMost s [] h = tt
  end_string-LeavesAtMost s (c ∷ rest) h =
      either k (c == b'\r') (behind_lf rest (λ behind. done (bytes_value s) behind)) refused
        (behind_lf-LeavesAtMost rest (λ behind. done (bytes_value s) behind) (omega (arith, h))
          (λ behind h. h))
        tt

  string_of-LeavesAtMost : (z : ℤ) → Keeps (string_of z)
  string_of-LeavesAtMost (pos n) rest h =
      either k (ltb (length rest) n) wants_more (end_string (take n rest) (drop n rest)) tt
        (end_string-LeavesAtMost (take n rest) (drop n rest) (omega (arith, length-drop n rest, h)))
  string_of-LeavesAtMost (negsuc zero) rest h = h
  string_of-LeavesAtMost (negsuc (suc n)) rest h = tt

  array_of-LeavesAtMost :
      (items : ℕ → Bytes → Answer) (z : ℤ) → ((j : ℕ) → Keeps (items j)) → Keeps (array_of items z)
  array_of-LeavesAtMost items (pos zero) keeps rest h = h
  array_of-LeavesAtMost items (pos (suc j)) keeps rest h = keeps j rest h
  array_of-LeavesAtMost items (negsuc zero) keeps rest h = h
  array_of-LeavesAtMost items (negsuc (suc n)) keeps rest h = tt

begin_value-LeavesAtMost :
    (c : ℕ) (rest : Bytes) (items : ℕ → Bytes → Answer)
    → ((j : ℕ) → Keeps (length rest) (items j))
    → LeavesAtMost (length rest) (begin_value c rest items)
begin_value-LeavesAtMost c rest items keeps =
    let k = length rest in
    let text_line = take_line-LineAtMost is_text rest in
    let number_line = take_number-LineAtMost rest in
    either k (c == b'+') _ _
      (behind_line-LeavesAtMost k (take_line is_text rest)
        (λ text behind. done (bytes_value text) behind) text_line (λ text behind h. h))
      (either k (c == b'-') _ _
        (behind_line-LeavesAtMost k (take_line is_text rest)
          (λ text behind. done (error_value text) behind) text_line (λ text behind h. h))
        (either k (c == b':') _ _
          (behind_line-LeavesAtMost k (take_number rest)
            (λ text behind. done (int_value (buf_to_long text)) behind) number_line
            (λ text behind h. h))
          (either k (c == b'$') _ _
            (behind_line-LeavesAtMost k (take_number rest)
              (λ text behind. string_of (buf_to_long text) behind) number_line
              (λ text. string_of-LeavesAtMost k (buf_to_long text)))
            (either k (c == b'*') _ refused
              (behind_line-LeavesAtMost k (take_number rest)
                (λ text behind. array_of items (buf_to_long text) behind) number_line
                (λ text. array_of-LeavesAtMost k items (buf_to_long text) keeps))
              tt))))

behind_item-LeavesAtMost :
    (k : ℕ) (x : Answer) (j : ℕ) (items : Values) (next : ℕ → Values → Bytes → Answer)
    → LeavesAtMost k x
    → ((i : ℕ) (more : Values) → Keeps k (next i more))
    → LeavesAtMost k (behind_item x j items next)
behind_item-LeavesAtMost k (done v rest) zero items next h keeps = h
behind_item-LeavesAtMost k (done v rest) (suc j) items next h keeps = keeps j _ rest h
behind_item-LeavesAtMost k wants_more j items next h keeps = tt
behind_item-LeavesAtMost k refused j items next h keeps = tt
behind_item-LeavesAtMost k exhausted j items next h keeps = tt

LeavesAtMost-weaken : (k l : ℕ) (x : Answer) → k ≤ l → LeavesAtMost k x → LeavesAtMost l x
LeavesAtMost-weaken k l (done v rest) h w = omega (arith, h, w)
LeavesAtMost-weaken k l wants_more h w = tt
LeavesAtMost-weaken k l refused h w = tt
LeavesAtMost-weaken k l exhausted h w = tt

mutual
  unfolding read_value

  -- A value has at least a byte.
  pub read_value-LeavesAtMost :
      (fuel : ℕ) (text : Bytes) → LeavesAtMost (length text - 1) (read_value fuel text)
  read_value-LeavesAtMost fuel [] = tt
  read_value-LeavesAtMost zero (c ∷ rest) = tt
  read_value-LeavesAtMost (suc fuel) (c ∷ rest) =
      LeavesAtMost-weaken (length rest) (suc (length rest) - 1) _ (omega arith) (
        begin_value-LeavesAtMost c rest (λ k behind. read_items fuel k nil behind)
          (λ j behind h.
            LeavesAtMost-weaken (length behind) (length rest) _ h
              (read_items-LeavesAtMost fuel j nil behind)))

  read_items-LeavesAtMost :
      (fuel k : ℕ) (items : Values) (text : Bytes)
      → LeavesAtMost (length text) (read_items fuel k items text)
  read_items-LeavesAtMost zero k items text = tt
  read_items-LeavesAtMost (suc fuel) k items text =
      behind_item-LeavesAtMost (length text) (read_value fuel text) k items
        (λ j more rest. read_items fuel j more rest)
        (LeavesAtMost-weaken (length text - 1) (length text) _ (omega arith)
          (read_value-LeavesAtMost fuel text))
        (λ i more behind h.
          LeavesAtMost-weaken (length behind) (length text) _ h
            (read_items-LeavesAtMost fuel i more behind))
