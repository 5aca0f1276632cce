-- ===== src/Dlis/Strings.antt =====
-- dlis.cc: comparisons of C strings, and the names of channels and frames. A C array of characters
-- is the list of its bytes; it ends at its first NUL or at the end of the list.
pub mod Names
use dlis_parser.Base.{
  ℕ, zero, suc, Bool, true, false, ◌&&◌, List, [], ◌∷◌, length, ◌==◌, if◌then◌else◌,
}
use dlis_parser.Codec.Memory.{Mem, SizedStr, text}
use dlis_parser.Base.Int.{pos, leb_ℤ}
use dlis_parser.Codec.Value.{NameVal}
use dlis_parser.Dlis.State.{Channel, Frame}

-- The characters before the first NUL; its length is `strlen`.
unfoldable pub c_str : List ℕ → List ℕ
c_str [] = []
c_str (c ∷ cs) = if c == 0 then [] else c ∷ c_str cs

-- strcmp(a, b) == 0, on texts without NUL
unfoldable pub same_str : List ℕ → List ℕ → Bool
same_str [] [] = true
same_str [] (b ∷ bs) = false
same_str (a ∷ as') [] = false
same_str (a ∷ as') (b ∷ bs) = (a == b) && same_str as' bs

-- strncmp(a, b, n) == 0: the texts agree up to n characters or to the NUL of both
unfoldable pub same_prefix : ℕ → List ℕ → List ℕ → Bool
same_prefix zero as' bs = true
same_prefix (suc n) [] [] = true
same_prefix (suc n) [] (b ∷ bs) = b == 0
same_prefix (suc n) (a ∷ as') [] = a == 0
same_prefix (suc n) (a ∷ as') (b ∷ bs) =
    if a == b then (if a == 0 then true else same_prefix n as' bs) else false

unfoldable pub strcmp_eq : List ℕ → List ℕ → Bool
unfolding c_str same_str
strcmp_eq a b = same_str (c_str a) (c_str b)

abbrev pub strncmp_eq : List ℕ → List ℕ → ℕ → Bool
strncmp_eq a b n = same_prefix n a b

unfoldable pub sized_str_cmp : Mem → SizedStr → List ℕ → Bool
unfolding same_prefix
sized_str_cmp m s b =
    (leb_ℤ s.len (pos (length b)) && leb_ℤ (pos (length b)) s.len)
    && strncmp_eq (text m s) b (length b)

unfoldable pub obname_cmp : NameVal → NameVal → Bool
unfolding same_prefix
obname_cmp a b =
    (a.origin == b.origin)
    && ((a.copy_number == b.copy_number)
        && ((length a.name == length b.name) && strncmp_eq a.name b.name (length a.name)))

-- The part that the comparisons of channels and of frames share.
unfoldable pub name_cmp : ℕ → ℕ → ℕ → ℕ → List ℕ → NameVal → Bool
unfolding c_str same_prefix
name_cmp seq_num seq origin copy_number name obn =
    (seq == seq_num)
    && ((origin == obn.origin)
        && ((copy_number == obn.copy_number)
            && ((length (c_str name) == length obn.name)
                && strncmp_eq (c_str name) obn.name (length obn.name))))

unfoldable pub channel_obname_cmp : ℕ → Channel → NameVal → Bool
unfolding name_cmp
channel_obname_cmp seq_num c obn = name_cmp seq_num c.seq_num c.origin c.copy_number c.name obn

unfoldable pub frame_obname_cmp : ℕ → Frame → NameVal → Bool
unfolding name_cmp
frame_obname_cmp seq_num f obn = name_cmp seq_num f.seq_num f.origin f.copy_number f.name obn
