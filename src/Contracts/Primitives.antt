-- ===== src/Contracts/Primitives.antt =====
-- The slugs of packages/contracts/src/common/primitives.ts, on ASCII texts.
use Prim.Native.Char.{Char, code}
use absolo_cloud_services.Base.{String, Bool, false, ◌&&◌, ◌||◌, not, leb, nat_eq}
use absolo_cloud_services.Texts.{text_length}

-- `[a-z0-9]`
unfoldable pub is_alnum : Char → Bool
is_alnum c = (leb 97 (code c) && leb (code c) 122) || (leb 48 (code c) && leb (code c) 57)

unfoldable pub is_hyphen : Char → Bool
is_hyphen c = nat_eq (code c) 45

-- `(?:[a-z0-9]|-(?!-))*[a-z0-9]$`, after a character that is a hyphen or is not.
unfoldable pub slug_rest : Bool → String → Bool
slug_rest hyphen String.[] = not hyphen
slug_rest hyphen (String.◌∷◌ c s) =
    (is_alnum c || (is_hyphen c && not hyphen)) && slug_rest (not (is_alnum c)) s

unfoldable pub slug_pattern : String → Bool
slug_pattern String.[] = false
slug_pattern (String.◌∷◌ c s) = is_alnum c && slug_rest false s

-- `SlugSchema`
unfoldable pub is_slug : String → Bool
unfolding slug_pattern
is_slug s = leb 2 (text_length s) && leb (text_length s) 48 && slug_pattern s
