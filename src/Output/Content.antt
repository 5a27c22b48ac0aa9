-- ===== src/Output/Content.antt =====
-- What the log lines of internal/master/output.go say: every byte but the newlines, in order.
use mathlib.Core.List.{append_assoc, append-nil}
use open_ctrl.Base.{
  ℕ, zero, suc, ◌-◌, ◌≡◌, ◌≢◌, ◌⊎◌, refl, sym, ap, ◌∙◌, arith, List, [], ◌∷◌, ◌++◌, ◌==◌,
  Bool-cases, if◌then◌else◌, length, take, drop, All, take-append-drop, inl, inr,
}
use open_ctrl.Output.Utf8.{full_rune}
use open_ctrl.Output.{ProcessLog, log_fragment_size, trim_newline, emit, last_start, cut, write}
use open_ctrl.Output.Pieces.{put_byte, put_bytes}
use open_ctrl.Output.Bytes.{IsPartial, write-put_bytes}

abbrev pub concat : List (List ℕ) → List ℕ
concat [] = []
concat (l ∷ ls) = l ++ concat ls

concat-append : (ls : List (List ℕ)) (l : List ℕ) → concat (ls ++ l ∷ []) ≡ concat ls ++ l
concat-append [] l = append-nil l
concat-append (x ∷ ls) l = rw (concat-append ls l, append_assoc)

-- All that a log holds: the lines sent, then what is pending.
abbrev pub content : ProcessLog → List ℕ
content p = concat p.sent ++ p.pending

abbrev pub without_newlines : List ℕ → List ℕ
without_newlines [] = []
without_newlines (b ∷ bs) = let rest = without_newlines bs in if b == 0x0a then rest else b ∷ rest

abbrev pub IsPlain : List ℕ → Type 0
IsPlain = All (λ b. b ≢ 0x0a)

pub IsPlain-take : (n : ℕ) (xs : List ℕ) → IsPlain xs → IsPlain (take n xs)
IsPlain-take zero xs h = tt
IsPlain-take (suc n) [] h = tt
IsPlain-take (suc n) (x ∷ xs) h = (h.0, IsPlain-take n xs h.1)

pub IsPlain-drop : (n : ℕ) (xs : List ℕ) → IsPlain xs → IsPlain (drop n xs)
IsPlain-drop zero xs h = h
IsPlain-drop (suc n) [] h = tt
IsPlain-drop (suc n) (x ∷ xs) h = IsPlain-drop n xs h.1

pub IsPlain-append : (xs ys : List ℕ) → IsPlain xs → IsPlain ys → IsPlain (xs ++ ys)
IsPlain-append [] ys h k = k
IsPlain-append (x ∷ xs) ys h k = (h.0, IsPlain-append xs ys h.1 k)

pub trim_newline-plain : (xs : List ℕ) → IsPlain xs → trim_newline xs ≡ xs
unfolding trim_newline
trim_newline-plain [] h = refl
trim_newline-plain (x ∷ []) h = ground (arith, h.0)
trim_newline-plain (x ∷ y ∷ r) h = ap (λ t. x ∷ t) (trim_newline-plain (y ∷ r) h.1)

pub trim_newline-line : (xs : List ℕ) → trim_newline (xs ++ 0x0a ∷ []) ≡ xs
unfolding trim_newline
trim_newline-line [] = refl
trim_newline-line (x ∷ []) = refl
trim_newline-line (x ∷ y ∷ r) = ap (λ t. x ∷ t) (trim_newline-line (y ∷ r))

content-emit : (p : ProcessLog) → content (emit p) ≡ concat p.sent ++ trim_newline p.pending
unfolding emit
content-emit p = rw (append-nil, concat-append) refl

-- The log after the first `n` pending bytes are sent.
send_first : ℕ → ProcessLog → ProcessLog
send_first n p = record {
  pending = drop n p.pending;
  sent = p.sent ++ trim_newline (take n p.pending) ∷ [];
}

cut_cases : (p : ProcessLog) → (cut p ≡ emit p) ⊎ ((n : ℕ) × (cut p ≡ send_first n p))
unfolding cut emit send_first
cut_cases p =
    elim (Bool-cases (full_rune (drop (last_start (length p.pending - 1) p.pending) p.pending))) [
      | inl whole ↦ inl (rw whole)
      | inr part ↦ inr (last_start (length p.pending - 1) p.pending, rw part)
    ]

content-send_first :
    (n : ℕ) (p : ProcessLog) → IsPlain p.pending → content (send_first n p) ≡ content p
unfolding send_first
content-send_first n p h = rw (
  concat-append,
  trim_newline-plain (take n p.pending) (IsPlain-take n p.pending h),
  append_assoc,
  take-append-drop,
)

content-cut : (p : ProcessLog) → IsPlain p.pending → content (cut p) ≡ content p
content-cut p h = elim (cut_cases p) [
  | inl e ↦ rw (e, content-emit p, trim_newline-plain p.pending h)
  | inr (n, e) ↦ rw (e, content-send_first n p h)
]

IsPlain-cut : (p : ProcessLog) → IsPlain p.pending → IsPlain (cut p).pending
IsPlain-cut p h = elim (cut_cases p) [
  | inl e ↦ rw e (unfold emit in tt)
  | inr (n, e) ↦ rw e (unfold send_first in IsPlain-drop n p.pending h)
]

unfoldable pub push : ProcessLog → ℕ → ProcessLog
push p b = record p { pending = p.pending ++ b ∷ [] }

pub put_byte_cases :
    (size : ℕ) (p : ProcessLog) (b : ℕ)
    → ((b ≡ 0x0a) × (put_byte size p b ≡ emit (push p b)))
      ⊎ (b ≢ 0x0a) × ((put_byte size p b ≡ cut (push p b)) ⊎ (put_byte size p b ≡ push p b))
unfolding put_byte push
put_byte_cases size p b = ground arith

without_newlines-newline :
    (b : ℕ) (bs : List ℕ) → b ≡ 0x0a → without_newlines (b ∷ bs) ≡ without_newlines bs
without_newlines-newline b bs e = ground arith

without_newlines-plain :
    (b : ℕ) (bs : List ℕ) → b ≢ 0x0a → without_newlines (b ∷ bs) ≡ b ∷ without_newlines bs
without_newlines-plain b bs e = ground arith

without_newlines-cons :
    (b : ℕ) (bs : List ℕ)
    → without_newlines (b ∷ bs) ≡ without_newlines (b ∷ []) ++ without_newlines bs
without_newlines-cons b bs = ground arith

content-push : (p : ProcessLog) (b : ℕ) → content (push p b) ≡ content p ++ b ∷ []
unfolding push
content-push p b = sym (append_assoc (concat p.sent) p.pending (b ∷ []))

content-emit_line : (p : ProcessLog) (b : ℕ) → b ≡ 0x0a → content (emit (push p b)) ≡ content p
content-emit_line p b e =
    content-emit (push p b) ∙ unfold push in rw (e, trim_newline-line p.pending)

module _ (size : ℕ) (p : ProcessLog) (b : ℕ) (h : IsPlain p.pending) where
  IsPlain-push : b ≢ 0x0a → IsPlain (push p b).pending
  unfolding push
  IsPlain-push other = IsPlain-append p.pending (b ∷ []) h (other, tt)

  content-put_byte : content (put_byte size p b) ≡ content p ++ without_newlines (b ∷ [])
  content-put_byte = elim (put_byte_cases size p b) [
    | inl (line, e) ↦
        ap content e
        ∙ content-emit_line p b line
        ∙ rw (without_newlines-newline b [] line, append-nil)
    | inr (other, inl e) ↦
        ap content e
        ∙ content-cut (push p b) (IsPlain-push other)
        ∙ content-push p b
        ∙ rw (without_newlines-plain b [] other)
    | inr (other, inr e) ↦ ap content e ∙ content-push p b ∙ rw (without_newlines-plain b [] other)
  ]

  IsPlain-put_byte : IsPlain (put_byte size p b).pending
  IsPlain-put_byte = elim (put_byte_cases size p b) [
    | inl (line, e) ↦ rw e (unfold emit in tt)
    | inr (other, inl e) ↦ rw e (IsPlain-cut (push p b) (IsPlain-push other))
    | inr (other, inr e) ↦ rw e (IsPlain-push other)
  ]

content-put_bytes :
    (size : ℕ) (p : ProcessLog) (bs : List ℕ)
    → IsPlain p.pending
    → (content (put_bytes size p bs) ≡ content p ++ without_newlines bs)
      × IsPlain (put_bytes size p bs).pending
unfolding put_bytes
content-put_bytes size p [] h = (sym (append-nil (content p)), h)
content-put_bytes size p (b ∷ bs) h =
    let (rest, plain) =
      content-put_bytes size (put_byte size p b) bs (IsPlain-put_byte size p b h) in
    (
      rest
          ∙ ap (λ c. c ++ without_newlines bs) (content-put_byte size p b h)
          ∙ append_assoc (content p) (without_newlines (b ∷ [])) (without_newlines bs)
          ∙ ap (◌++◌ (content p)) (sym (without_newlines-cons b bs)),
      plain,
    )

-- Nothing that a process writes is lost, doubled or reordered: if the pending fragment is partial
-- and holds no newline, the lines sent so far and the pending bytes, put together, grow by the
-- data of a `Write` less its newlines; and again no newline is pending.
pub content-write :
    (p : ProcessLog) (bs : List ℕ)
    → IsPartial p
    → IsPlain p.pending
    → (content (write p bs) ≡ content p ++ without_newlines bs) × IsPlain (write p bs).pending
content-write p bs k h = rw (write-put_bytes p bs k) (content-put_bytes log_fragment_size p bs h)
