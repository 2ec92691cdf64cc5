-- ===== src/KeyFile/Reader/Lines.antt =====
-- What `readLine` takes off the file.
use remmina_krunner.Base.{
  ℕ, zero, suc, ◌<◌, Text, [], ◌∷◌, ◌++◌, drop, length, ◌==◌, ◌≡◌, refl, arith, Bool-cases, inl,
  inr, ap,
}
use remmina_krunner.KeyFile.Reader.{read_line}

-- A read and what is left are the bytes that were there.
pub read_line-drop :
    (limit : ℕ) (bytes : Text)
    → read_line limit bytes ++ drop (length (read_line limit bytes)) bytes ≡ bytes
unfolding read_line
read_line-drop zero bytes = refl
read_line-drop (suc limit) [] = refl
read_line-drop (suc limit) (c ∷ rest) = elim (Bool-cases (c == b'\n')) [
  | inl e ↦ rw e refl
  | inr e ↦ rw e (ap (◌∷◌ c) (read_line-drop limit rest))
]

pub read_line-pos : (limit c : ℕ) (rest : Text) → 0 < length (read_line (suc limit) (c ∷ rest))
unfolding read_line
read_line-pos limit c rest = elim (Bool-cases (c == b'\n')) [
  | inl e ↦ rw e (omega arith)
  | inr e ↦ rw e (omega arith)
]

pub read_line-nil : (limit : ℕ) → read_line (suc limit) [] ≡ []
unfolding read_line
read_line-nil limit = refl
