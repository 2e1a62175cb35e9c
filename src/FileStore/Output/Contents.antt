-- ===== src/FileStore/Output/Contents.antt =====
-- What the spoolfiles that horace+file writes have in them.
use libholmes_horace.Record
use libholmes_horace.Record.{Record}
use libholmes_horace.FileStore.Output.{
  new_spoolfile_writer, write_if, write_spoolfile, Ending, close, after_write, SpoolfileWriter,
  FileSessionWriter,
}
use libholmes_horace.FileStore.Output.Lengths.{full_length-write, IsStorable}
use libholmes_horace.Common.{
  ℕ, ◌+◌, ◌%◌, ◌^◌, ◌≤◌, ◌<◌, ◌≡◌, refl, sym, ap, ◌∙◌, ◌⊎◌, inl, inr, Bool, true, false, not, ◌&&◌,
  Option, none, some, List, [], ◌∷◌, ◌++◌, append_assoc, append-nil, arith, ltb, Bool-cases, length,
  length-append, Error, Result, err, ok,
}

-- The octets are those of the records, one after the other.
pub data Holds : List Record → List ℕ → Type 0 where
  empty : Holds [] []
  more :
      (rs : List Record) (r : Record) (s t : List ℕ)
      → Holds rs s
      → Record.write r ≡ ok t
      → Holds (rs ++ (r ∷ [])) (s ++ t)

-- The session record at the start of a spoolfile, and the records behind it.
abbrev pub Entry : Type 0
Entry = Record × List Record

-- Each file has the records of its entry, counts their octets, and is within its capacity, which is
-- `filesize`, unless it has the session record alone.
abbrev pub Stored : ℕ → List SpoolfileWriter → List Entry → Type 0
Stored filesize [] [] = Unit {0}
Stored filesize [] (e ∷ es) = ⊥
Stored filesize (f ∷ fs) [] = ⊥
Stored filesize (f ∷ fs) ((srec, rs) ∷ es) =
    Holds (srec ∷ rs) f.octets
    × (f.first ≡ false)
    × (f.capacity ≡ filesize)
    × (f.size ≡ length f.octets)
    × (f.size < 2 ^ 63)
    × ((length f.octets ≤ filesize) ⊎ (rs ≡ []))
    × Stored filesize fs es

-- The session record, which may be missing, is the one that the spoolfile in progress starts with.
abbrev pub InForce : Option Record → Option SpoolfileWriter → List Entry → Type 0
InForce s none es = Unit {0}
InForce s (some f) [] = ⊥
InForce s (some f) ((srec, rs) ∷ es) = s ≡ some srec

unfoldable pub tagged : Record → List Record → List (Record × Record)
tagged srec [] = []
tagged srec (r ∷ rs) = (srec, r) ∷ tagged srec rs

-- The records of all spoolfiles but the session records, in the order in which they were written,
-- each with the session record that its spoolfile starts with; the last spoolfile comes first.
unfoldable pub payload : List Entry → List (Record × Record)
unfolding tagged
payload [] = []
payload ((srec, rs) ∷ es) = payload es ++ tagged srec rs

tagged-append :
    (srec : Record) (rs : List Record) (r : Record)
    → tagged srec (rs ++ (r ∷ [])) ≡ tagged srec rs ++ ((srec, r) ∷ [])
unfolding tagged
tagged-append srec [] r = refl
tagged-append srec (a ∷ rs) r = ap (λ t. (srec, a) ∷ t) (tagged-append srec rs r)

abbrev pub files : FileSessionWriter → List SpoolfileWriter
files w = close w.spoolfile w.closed

and_not : (a b : Bool) → (a && not b) ≡ false → b ≡ false → a ≡ false
and_not true true h k = cc
and_not true false h k = h
and_not false b h k = refl

-- What a record that was written leaves in the file.
record WrittenTo (r : Record) (f f' : SpoolfileWriter) : Type 0 where
  added : List ℕ
  made : Record.write r ≡ ok added
  octets : f'.octets ≡ f.octets ++ added
  first : f'.first ≡ false
  capacity : f'.capacity ≡ f.capacity
  counted : f'.size ≡ length f'.octets
  small : f'.size < 2 ^ 63
  within : f.first ≡ false → length f'.octets ≤ f.capacity

written_parts :
    (r : Record) (f f' : SpoolfileWriter)
    → IsStorable r
    → f.size ≡ length f.octets
    → f.size < 2 ^ 63
    → f.capacity < 2 ^ 63
    → (f.first ≡ true → f.size ≡ 0)
    → write_spoolfile r f ≡ ok (f', true)
    → WrittenTo r f f'
unfolding write_spoolfile write_if
written_parts r f f' storable counted small bounded start e =
    let (octets, made, full, short) = full_length-write r storable in
    let size' = (f.size + length octets) % 2 ^ 64 in
    let sum : size' ≡ f.size + length octets = omega (arith, small, short) in
    elim (Bool-cases (ltb f.capacity size' && not f.first)) [
      | inl t ↦ (let no = rw (full, t) at e in cc)
      | inr t ↦
          let h = rw (full, t, made) at e in
          let same_octets : f'.octets ≡ f.octets ++ octets = cc in
          let first : f'.first ≡ false = cc in
          let size : f'.size ≡ size' = cc in
          let capacity : f'.capacity ≡ f.capacity = cc in
          let total : length f'.octets ≡ length f.octets + length octets =
            ap length same_octets ∙ length-append f.octets octets in
          let within : f.first ≡ false → size' ≤ f.capacity =
            λ not_first. ground (arith, and_not (ltb f.capacity size') f.first t not_first) in
          record {
            added = octets;
            made = made;
            octets = same_octets;
            first = first;
            capacity = capacity;
            counted = omega (arith, size, sum, total, counted);
            small = elim (Bool-cases f.first) [
              | inl b ↦ omega (arith, size, sum, start b, short)
              | inr b ↦ omega (arith, size, within b, bounded)
            ];
            within = λ b. omega (arith, within b, sum, total, counted);
          }
    ]

pub after_write-cases :
    (P : Ending → Type 0) (w : FileSessionWriter) (x : Result (SpoolfileWriter × Bool))
    (written refused : FileSessionWriter → Ending)
    → ((e : Error) → x ≡ err e → P (w, err e))
    → ((f : SpoolfileWriter) → x ≡ ok (f, true) → P (written (record w { spoolfile = some f })))
    → ((f : SpoolfileWriter) → x ≡ ok (f, false) → P (refused w))
    → P (after_write w x written refused)
unfolding after_write
after_write-cases P w (err e) written refused h k l = h e refl
after_write-cases P w (ok (f, true)) written refused h k l = k f refl
after_write-cases P w (ok (f, false)) written refused h k l = l f refl

-- A record goes to the spoolfile in progress.
pub appended :
    (filesize : ℕ) (srec r : Record) (f f' : SpoolfileWriter) (fs : List SpoolfileWriter)
    (es : List Entry)
    → filesize < 2 ^ 63
    → IsStorable r
    → write_spoolfile r f ≡ ok (f', true)
    → Stored filesize (f ∷ fs) es
    → InForce (some srec) (some f) es
    → (es' : List Entry) × Stored filesize (f' ∷ fs) es'
      × InForce (some srec) (some f') es'
      × (payload es' ≡ payload es ++ ((srec, r) ∷ []))
unfolding payload
appended filesize srec r f f' fs [] bounded storable e h now = absurd h
appended filesize srec r f f' fs ((head, rs) ∷ es) bounded storable e h now =
    let (holds, first, capacity, counted, small, _, others) = h in
    let w =
      written_parts r f f' storable counted small (omega (arith, capacity, bounded))
        (λ b. let no : true ≡ false = sym b ∙ first in cc) e in
    let own : srec ≡ head = cc (now) in
    (
      (head, rs ++ (r ∷ [])) ∷ es,
      (
        rw (w.octets) (more (head ∷ rs) r f.octets w.added holds w.made),
        w.first,
        w.capacity ∙ capacity,
        w.counted,
        w.small,
        inl (omega (arith, w.within first, capacity)),
        others,
      ),
      now,
      ap (λ t. payload es ++ t) (tagged-append head rs r)
          ∙ sym (append_assoc (payload es) (tagged head rs) ((head, r) ∷ []))
          ∙ ap (λ x. (payload es ++ tagged head rs) ++ ((x, r) ∷ [])) (sym own),
    )

-- A session record starts a new one.
pub started :
    (filesize : ℕ) (srec : Record) (filename : List ℕ) (f' : SpoolfileWriter)
    (fs : List SpoolfileWriter) (es : List Entry)
    → filesize < 2 ^ 63
    → IsStorable srec
    → write_spoolfile srec (new_spoolfile_writer filename filesize) ≡ ok (f', true)
    → Stored filesize fs es
    → Stored filesize (f' ∷ fs) ((srec, []) ∷ es) × (payload ((srec, []) ∷ es) ≡ payload es)
unfolding payload
started filesize srec filename f' fs es bounded storable e h =
    let w =
      written_parts srec (new_spoolfile_writer filename filesize) f' storable refl (omega arith)
        bounded (λ _. refl) e in
    (
      (
        rw (w.octets) (more [] srec [] w.added empty w.made),
        w.first,
        w.capacity,
        w.counted,
        w.small,
        inr refl,
        h,
      ),
      append-nil (payload es),
    )
