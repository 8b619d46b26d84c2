-- ===== src/Tests/Texts.antt =====
-- Texts of addresses.
use Prim.Native.String.{String}
use Prim.Native.Char.{code}
use pce_testing.Base.{ℕ, ◌≡◌, refl, List, [], ◌∷◌, none, some}
use pce_testing.Net.{v4, v6}
use pce_testing.Net.Parse.{parse_addr}

abbrev text : String → List ℕ
text String.[] = []
text (String.◌∷◌ c s) = code c ∷ text s

documentation :
    parse_addr (text "2001:db8::1%eth0")
    ≡ some
        (v6 (32 ∷ 1 ∷ 13 ∷ 184 ∷ 0 ∷ 0 ∷ 0 ∷ 0 ∷ 0 ∷ 0 ∷ 0 ∷ 0 ∷ 0 ∷ 0 ∷ 0 ∷ 1 ∷ []) (text "eth0"))
unfolding parse_addr
documentation = refl

mapped :
    parse_addr (text "::ffff:1.2.3.4")
    ≡ some (v6 (0 ∷ 0 ∷ 0 ∷ 0 ∷ 0 ∷ 0 ∷ 0 ∷ 0 ∷ 0 ∷ 0 ∷ 255 ∷ 255 ∷ 1 ∷ 2 ∷ 3 ∷ 4 ∷ []) [])
unfolding parse_addr
mapped = refl

dotted : parse_addr (text "192.0.2.255") ≡ some (v4 (192 ∷ 0 ∷ 2 ∷ 255 ∷ []))
unfolding parse_addr
dotted = refl

leading_zero : parse_addr (text "192.0.02.255") ≡ none
unfolding parse_addr
leading_zero = refl

two_ellipses : parse_addr (text "1::2::3") ≡ none
unfolding parse_addr
two_ellipses = refl

label : parse_addr (text "16001") ≡ none
unfolding parse_addr
label = refl

nine_groups : parse_addr (text "1:2:3:4:5:6:7:8:9") ≡ none
unfolding parse_addr
nine_groups = refl

full :
    parse_addr (text "1:2:3:4:5:6:7:8")
    ≡ some (v6 (0 ∷ 1 ∷ 0 ∷ 2 ∷ 0 ∷ 3 ∷ 0 ∷ 4 ∷ 0 ∷ 5 ∷ 0 ∷ 6 ∷ 0 ∷ 7 ∷ 0 ∷ 8 ∷ []) [])
unfolding parse_addr
full = refl
