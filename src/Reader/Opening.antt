-- ===== src/Reader/Opening.antt =====
-- The retries of threaded_opener in lib/bgpstream_reader.c.
use libbgpstream.Prelude.{◌≤◌, ◌≡◌, refl, Bool, true, false, List, [], ◌∷◌, take, arith}
use libbgpstream.Reader.{open_format, max_retries}

-- Whether one of the attempts succeeds.
abbrev pub any_true : List Bool → Bool
any_true [] = false
any_true (true ∷ l) = true
any_true (false ∷ l) = any_true l

-- The opener makes the format exactly if one of the first five attempts succeeds, and sleeps for
-- 150 seconds at most in all.
pub open_format_lem :
    (attempts : List Bool)
    → ((open_format attempts).0 ≡ any_true (take max_retries attempts))
      × ((open_format attempts).1 ≤ 150)
unfolding open_format
open_format_lem [] = (refl, omega arith)
open_format_lem (true ∷ l) = (refl, omega arith)
open_format_lem (false ∷ []) = (refl, omega arith)
open_format_lem (false ∷ true ∷ l) = (refl, omega arith)
open_format_lem (false ∷ false ∷ []) = (refl, omega arith)
open_format_lem (false ∷ false ∷ true ∷ l) = (refl, omega arith)
open_format_lem (false ∷ false ∷ false ∷ []) = (refl, omega arith)
open_format_lem (false ∷ false ∷ false ∷ true ∷ l) = (refl, omega arith)
open_format_lem (false ∷ false ∷ false ∷ false ∷ []) = (refl, omega arith)
open_format_lem (false ∷ false ∷ false ∷ false ∷ true ∷ l) = (refl, omega arith)
open_format_lem (false ∷ false ∷ false ∷ false ∷ false ∷ l) = (refl, omega arith)
