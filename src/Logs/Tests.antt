-- ===== src/Logs/Tests.antt =====
-- Small logs.
use offckb.Base.{ℕ, refl, some, List, [], ◌∷◌, text_eq, arith}
use offckb.Base.Text.{text}
use offckb.Logs.{split_lines, Decoder, Follower, Change, on_change, follow}
use offckb.Logs.Following.{IsStreaming, HasFollowed, IsGrowing, follow-growing}

-- Each byte is one unit.
abbrev ascii : Decoder (Unit {0})
ascii = record { fresh = tt; decode = λ s xs. (tt, xs) }

ascii-IsStreaming : IsStreaming ascii
ascii-IsStreaming = record { decode_empty = λ s. refl; decode_append = λ s xs ys. refl }

-- A file that grows from one byte to five.
abbrev small_log : List ℕ
small_log = text "xab\nc"

abbrev growth : Change
growth = record {
  curr = record { size = 5; ino = 1 };
  prev = record { size = 1; ino = 1 };
  read = some (small_log, 5);
}

abbrev at_start : Follower (Unit {0})
at_start = record { offset = 1; partial = []; decoder = tt }

follow-growing_example :
    HasFollowed ascii 1 small_log
      (follow ascii (growth ∷ []) at_start).0
      (follow ascii (growth ∷ []) at_start).1
unfolding IsGrowing on_change split_lines text
follow-growing_example =
    follow-growing ascii 1 small_log (growth ∷ []) ascii-IsStreaming (omega arith) (refl, refl, tt)
