-- ===== src/Tests/Logs.antt =====
-- Log lines of a process.
use open_ctrl.Base.{ℕ, refl, ◌≡◌, arith, List, [], ◌∷◌, ◌++◌}
use open_ctrl.Output.{ProcessLog, log_fragment_size, write}
use open_ctrl.Output.Pieces.{put_bytes}
use open_ctrl.Output.Bytes.{IsPartial, write-put_bytes}
use open_ctrl.Output.Content.{content, without_newlines, IsPlain, content-write}
use open_ctrl.Output.Text.{IsLegible, write-IsLegible}
use open_ctrl.Telemetry.Frame.{valid_utf8, valid_after, rune_lead}

abbrev begun : ProcessLog
begun = record { pending = 0x68 ∷ []; sent = [] }

abbrev words : List ℕ
words = 0x69 ∷ 0x0a ∷ 0x6f ∷ []

begun-IsPartial : IsPartial begun
begun-IsPartial = omega arith

write-put_bytes_example : write begun words ≡ put_bytes log_fragment_size begun words
write-put_bytes_example = write-put_bytes begun words begun-IsPartial

content-write_example :
    (content (write begun words) ≡ content begun ++ without_newlines words)
    × IsPlain (write begun words).pending
content-write_example = content-write begun words begun-IsPartial (omega arith, tt)

-- "é" is cut after its first byte, and goes on.
abbrev half : ProcessLog
half = record { pending = 0xc3 ∷ []; sent = [] }

half-IsLegible : IsLegible half (0xa9 ∷ 0x0a ∷ [])
unfolding valid_utf8 valid_after rune_lead
half-IsLegible = record { plain = (λ e. cc, tt); lines = tt; text = refl }

write-IsLegible_example : IsLegible (write half (0xa9 ∷ [])) (0x0a ∷ [])
write-IsLegible_example = write-IsLegible half (0xa9 ∷ []) (0x0a ∷ []) (omega arith) half-IsLegible
