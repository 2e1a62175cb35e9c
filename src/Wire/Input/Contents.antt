-- ===== src/Wire/Input/Contents.antt =====
-- The contents of the buffered reader of horace/octet_reader.{h,cc}, and what reading takes from them.
use libholmes_horace.Common.{
  ℕ, zero, suc, ◌-◌, ◌≤◌, ◌<◌, ◌≡◌, refl, ap, ◌∙◌, List, [], ◌∷◌, ◌++◌, append_assoc, arith, length,
  take, drop, length-drop, drop-drop, eof_error, Result, err, ok,
}
use libholmes_horace.Common.Text.{take-between}
use libholmes_horace.Wire.Input.{contents, OctetReader}

-- What `_read_direct` promises: it delivers no more than it is asked for and no more than there is,
-- and something if it can.
pub record IsSource (chunk : List ℕ → ℕ → ℕ) : Type 0 where
  pub within_source : (s : List ℕ) (n : ℕ) → chunk s n ≤ length s
  pub within_request : (s : List ℕ) (n : ℕ) → chunk s n ≤ n
  pub delivers : (s : List ℕ) (n : ℕ) → 1 ≤ length s → 1 ≤ n → 1 ≤ chunk s n

pub take-append_le : (k : ℕ) (b s : List ℕ) → k ≤ length b → take k (b ++ s) ≡ take k b
take-append_le zero b s le = refl
take-append_le (suc k) [] s le = absurd (omega arith)
take-append_le (suc k) (c ∷ b) s le = ap (λ t. c ∷ t) (take-append_le k b s (omega arith))

pub drop-append_le : (k : ℕ) (b s : List ℕ) → k ≤ length b → drop k (b ++ s) ≡ drop k b ++ s
drop-append_le zero b s le = refl
drop-append_le (suc k) [] s le = absurd (omega arith)
drop-append_le (suc k) (c ∷ b) s le = drop-append_le k b s (omega arith)

-- `left` octets of the contents were read behind `got`, or there are not so many.
pub data Exactly (left : ℕ) (got : List ℕ) (r : OctetReader)
    : OctetReader × Result (List ℕ) → Type 0 where
  complete :
      (r' : OctetReader) (out : List ℕ)
      → left ≤ length (contents r)
      → contents r' ≡ drop left (contents r)
      → out ≡ got ++ take left (contents r)
      → Exactly left got r (r', ok out)
  ended : (r' : OctetReader) → length (contents r) < left → Exactly left got r (r', err eof_error)

-- Some octets are read, and then the others.
pub Exactly-step :
    (left k : ℕ) (got : List ℕ) (r r' : OctetReader) (out : OctetReader × Result (List ℕ))
    → k ≤ left
    → k ≤ length (contents r)
    → contents r' ≡ drop k (contents r)
    → Exactly (left - k) (got ++ take k (contents r)) r' out
    → Exactly left got r out
Exactly-step left k got r r' _ le fits e (complete r'' out enough rest v) =
    complete r'' out (omega (arith, enough, le, fits, ap length e, length-drop k (contents r)))
      (rest ∙ rw (e) (drop-drop left k (contents r) le))
      (v
        ∙ rw (e) (
            append_assoc got (take k (contents r)) (take (left - k) (drop k (contents r)))
            ∙ ap (λ t. got ++ t) (take-between (contents r) k left le)))
Exactly-step left k got r r' _ le fits e (ended r'' few) =
    ended r'' (omega (arith, few, le, fits, ap length e, length-drop k (contents r)))
