-- ===== src/Output/Text.antt =====
-- internal/master/output.go: no log line splits a rune.
pub mod Runes
pub mod Last
use mathlib.Core.List.{append_assoc}
use open_ctrl.Base.{
  ℕ, zero, suc, ◌-◌, ◌<◌, ◌≡◌, ◌≢◌, ◌⊎◌, inl, inr, refl, sym, ap, ◌∙◌, subst, arith, Bool, true,
  false, not, List, [], ◌∷◌, ◌++◌, ◌==◌, length, take, drop, All, length-append, Bool-cases,
  if◌then◌else◌,
}
use open_ctrl.Telemetry.Frame.{valid_utf8, valid_after, rune_lead}
use open_ctrl.Output.Utf8.{rune_start, full_rune}
use open_ctrl.Output.{ProcessLog, log_fragment_size, trim_newline, emit, last_start, cut, write}
use open_ctrl.Output.Pieces.{put_byte, put_bytes}
use open_ctrl.Output.Bytes.{IsPartial, write-put_bytes}
use open_ctrl.Output.Content.{
  IsPlain, IsPlain-append, IsPlain-take, IsPlain-drop, trim_newline-plain, trim_newline-line, push,
  put_byte_cases,
}
use open_ctrl.Output.Text.Runes.{valid-split, valid-join, valid-before, full-valid}
use open_ctrl.Output.Text.Last.{IsLast, pending-IsLast, take-before, drop-before}

-- Valid UTF-8.
abbrev pub IsText : List ℕ → Type 0
IsText xs = valid_utf8 xs ≡ true

-- The lines sent are valid, and what is pending is valid with what the process writes next.
pub record IsLegible (p : ProcessLog) (next : List ℕ) : Type 0 where
  pub plain : IsPlain p.pending
  pub lines : All IsText p.sent
  pub text : IsText (p.pending ++ next)

one_more : (ls : List (List ℕ)) (l : List ℕ) → All IsText ls → IsText l → All IsText (ls ++ l ∷ [])
one_more [] l h i = (i, tt)
one_more (x ∷ ls) l (h, hs) i = (h, one_more ls l hs i)

behind : (xs ys : List ℕ) → IsText xs → IsText (xs ++ ys) → IsText ys
unfolding valid_utf8
behind xs ys h i = valid-split 0 0x80 0xbf xs ys h i

before : (b : ℕ) (xs ys : List ℕ) → rune_start b ≡ true → IsText (xs ++ b ∷ ys) → IsText xs
unfolding valid_utf8
before b xs ys r h = valid-before 0 0x80 0xbf b xs ys (omega arith) (omega arith) r h

join : (xs ys : List ℕ) → IsText xs → IsText ys → IsText (xs ++ ys)
unfolding valid_utf8
join xs ys h i = valid-join 0 0x80 0xbf xs ys h i

-- The two parts of what is pending, and what follows.
record HasParts (xs next : List ℕ) (l : IsLast xs (last_start (length xs - 1) xs)) : Type 0 where
  head_text : IsText l.before
  tail_text : IsText ((l.first ∷ l.inner) ++ next)
  head_taken : take (last_start (length xs - 1) xs) xs ≡ l.before
  tail_left : drop (last_start (length xs - 1) xs) xs ≡ l.first ∷ l.inner

parts :
    (xs next : List ℕ) (l : IsLast xs (last_start (length xs - 1) xs))
    → IsText (xs ++ next)
    → HasParts xs next l
parts xs next l t =
    let whole : IsText (l.before ++ ((l.first ∷ l.inner) ++ next)) =
      subst IsText (ap (λ y. y ++ next) l.split ∙ append_assoc l.before (l.first ∷ l.inner) next)
        t in
    let head : IsText l.before = elim l.starts [
      | inl e ↦ rw e (unfold valid_utf8 valid_after in refl)
      | inr r ↦ before l.first l.before (l.inner ++ next) r whole
    ] in
    record {
      head_text = head;
      tail_text = behind l.before ((l.first ∷ l.inner) ++ next) head whole;
      head_taken =
          ap (take (last_start (length xs - 1) xs)) l.split
          ∙ take-before l.before (l.first ∷ l.inner) _ l.size;
      tail_left =
          ap (drop (last_start (length xs - 1) xs)) l.split
          ∙ drop-before l.before (l.first ∷ l.inner) _ l.size;
    }

emit-IsLegible :
    (p : ProcessLog) (next : List ℕ) → IsText p.pending → IsLegible p next → IsLegible (emit p) next
unfolding emit
emit-IsLegible p next t h = record {
  plain = tt;
  lines = one_more p.sent _ h.lines (rw (trim_newline-plain p.pending h.plain) t);
  text = behind p.pending next t h.text;
}

cut-IsLegible :
    (p : ProcessLog) (next : List ℕ)
    → 0 < length p.pending
    → IsLegible p next
    → IsLegible (cut p) next
unfolding cut emit
cut-IsLegible p next n h =
    let l = pending-IsLast p.pending n in
    let a = parts p.pending next l h.text in
    let last : ℕ = last_start (length p.pending - 1) p.pending in
    elim (Bool-cases (full_rune (drop last p.pending))) [
      | inl e ↦
          let whole : IsText p.pending = subst IsText (sym l.split) (
            join l.before (l.first ∷ l.inner) a.head_text (
              full-valid l.first l.inner next l.all_inner a.tail_text
                (ap full_rune (sym a.tail_left) ∙ e))) in
          rw e (emit-IsLegible p next whole h)
      | inr e ↦ rw e (record {
        plain = IsPlain-drop last p.pending h.plain;
        lines = one_more p.sent _ h.lines (
            rw
              (
                trim_newline-plain (take last p.pending) (IsPlain-take last p.pending h.plain),
                a.head_taken,
              )
              a.head_text);
        text = subst (λ y. IsText (y ++ next)) (sym a.tail_left) a.tail_text;
      })
    ]

push-IsLegible :
    (p : ProcessLog) (b : ℕ) (next : List ℕ)
    → b ≢ 0x0a
    → IsLegible p (b ∷ next)
    → IsLegible (push p b) next
unfolding push
push-IsLegible p b next n h = record {
  plain = IsPlain-append p.pending (b ∷ []) h.plain (n, tt);
  lines = h.lines;
  text = subst IsText (sym (append_assoc p.pending (b ∷ []) next)) h.text;
}

-- A newline ends a line.
line-IsLegible :
    (p : ProcessLog) (next : List ℕ)
    → IsLegible p (0x0a ∷ next)
    → IsLegible (emit (push p 0x0a)) next
unfolding emit push
line-IsLegible p next h =
    let t : IsText p.pending = before 0x0a p.pending next (unfold rune_start in refl) h.text in
    record {
      plain = tt;
      lines = one_more p.sent _ h.lines (rw (trim_newline-line p.pending) t);
      text = unfold valid_utf8 valid_after rune_lead in behind p.pending (0x0a ∷ next) t h.text;
    }

byte-IsLegible :
    (size : ℕ) (p : ProcessLog) (b : ℕ) (next : List ℕ)
    → IsLegible p (b ∷ next)
    → IsLegible (put_byte size p b) next
byte-IsLegible size p b next h = elim (put_byte_cases size p b) [
  | inl (n, e) ↦ rw (e, n) (line-IsLegible p next (subst (λ c. IsLegible p (c ∷ next)) n h))
  | inr (n, inl e) ↦ rw e (
      cut-IsLegible (push p b) next (unfold push in omega (arith, length-append p.pending (b ∷ [])))
        (push-IsLegible p b next n h))
  | inr (n, inr e) ↦ rw e (push-IsLegible p b next n h)
]

bytes-IsLegible :
    (size : ℕ) (p : ProcessLog) (bs next : List ℕ)
    → IsLegible p (bs ++ next)
    → IsLegible (put_bytes size p bs) next
unfolding put_bytes
bytes-IsLegible size p [] next h = h
bytes-IsLegible size p (b ∷ bs) next h =
    bytes-IsLegible size (put_byte size p b) bs next (byte-IsLegible size p b (bs ++ next) h)

-- If what is pending and all that the process writes is valid UTF-8, then so is every line that a
-- `Write` sends, however long the lines are: no rune is split. Conditions: the fragment pending is
-- partial and has no newline, and the lines sent before are valid.
pub write-IsLegible :
    (p : ProcessLog) (bs next : List ℕ)
    → IsPartial p
    → IsLegible p (bs ++ next)
    → IsLegible (write p bs) next
write-IsLegible p bs next h l =
    rw (write-put_bytes p bs h) (bytes-IsLegible log_fragment_size p bs next l)
