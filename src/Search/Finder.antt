-- ===== src/Search/Finder.antt =====
-- `ShortFinder` and `Finder` of search.rs: the first occurrence of a needle, with tables that are
-- built once for a query.
use Prim.Native.Nat.{bit_and, bit_xor}
use macevery.Prelude.{
  ℕ, zero, suc, ◌+◌, ◌-◌, ◌*◌, ◌/◌, ◌%◌, ◌^◌, min, Bool, not, ◌&&◌, Option, none, some, List, [],
  ◌∷◌, if◌then◌else◌, ltb, leb, ◌==◌, length, set, get_or, take, drop, replicate,
}
use macevery.Search.Text.{Bytes, at, bytes_eq, find}

-- `u64::from_le_bytes(haystack[i..i + 8])`.
unfoldable pub word_at : ℕ → Bytes → ℕ → ℕ
word_at zero haystack i = 0
word_at (suc n) haystack i = at haystack i + 256 * word_at n haystack (i + 1)

unfoldable pub zero_byte_mask : ℕ → ℕ
zero_byte_mask word =
    let borrowed = (word + (2 ^ 64 - 0x0101010101010101)) % 2 ^ 64 in
    bit_and (bit_and borrowed (2 ^ 64 - 1 - word)) 0x8080808080808080

unfoldable pub trailing_zeros : ℕ → ℕ → ℕ
trailing_zeros zero word = 0
trailing_zeros (suc n) word =
    let rest = trailing_zeros n (word / 2) in if word % 2 == 1 then 0 else 1 + rest

-- `bytes` up to `len`; `first` and `last` are the first and the last of them, eight times.
pub record ShortFinder : Type 0 where
  pub bytes : Bytes
  pub first : ℕ
  pub last : ℕ
  pub len : ℕ

unfoldable pub short_new : Bytes → ShortFinder
short_new needle =
    if not (length needle == 0) && leb (length needle) 7
    then record {
      bytes = needle;
      first = word_at 8 (replicate 8 (at needle 0)) 0;
      last = word_at 8 (replicate 8 (at needle (length needle - 1))) 0;
      len = length needle;
    }
    else record { bytes = []; first = 0; last = 0; len = 0 }

-- `haystack[candidate..candidate + N] == *needle`.
unfoldable pub stands_at : ShortFinder → Bytes → ℕ → Bool
stands_at f haystack i = bytes_eq (take f.len (drop i haystack)) f.bytes

-- `while candidates != 0`, of 64 bits.
unfoldable pub try_candidates : ℕ → ShortFinder → Bytes → ℕ → ℕ → Option ℕ
try_candidates zero f haystack offset candidates = none
try_candidates (suc n) f haystack offset candidates =
    let candidate = offset + trailing_zeros 64 candidates / 8 in
    let rest = try_candidates n f haystack offset (bit_and candidates (candidates - 1)) in
    if candidates == 0
    then none
    else if stands_at f haystack candidate
    then some candidate
    else rest

-- `while offset < starts`; the first argument is `starts - offset`.
unfoldable pub try_rest : ℕ → ShortFinder → Bytes → ℕ → Option ℕ
try_rest zero f haystack offset = none
try_rest (suc n) f haystack offset =
    let rest = try_rest n f haystack (offset + 1) in
    if stands_at f haystack offset then some offset else rest

unfoldable pub candidates_at : ShortFinder → Bytes → ℕ → ℕ
candidates_at f haystack offset =
    bit_and (zero_byte_mask (bit_xor (word_at 8 haystack offset) f.first))
      (zero_byte_mask (bit_xor (word_at 8 haystack (offset + f.len - 1)) f.last))

abbrev pub or_next : Option ℕ → Option ℕ → Option ℕ
or_next none o = o
or_next (some i) o = some i

-- `while starts - offset >= 8`; each round moves on by 8, so `starts` rounds are enough.
unfoldable pub try_words : ℕ → ShortFinder → Bytes → ℕ → ℕ → Option ℕ
try_words zero f haystack starts offset = try_rest (starts - offset) f haystack offset
try_words (suc n) f haystack starts offset =
    let rest = try_words n f haystack starts (offset + 8) in
    if leb 8 (starts - offset)
    then or_next (try_candidates 64 f haystack offset (candidates_at f haystack offset)) rest
    else try_rest (starts - offset) f haystack offset

unfoldable pub find_bytes : ShortFinder → Bytes → Option ℕ
find_bytes f haystack =
    if ltb (length haystack) f.len
    then none
    else let starts = length haystack - f.len + 1 in try_words starts f haystack starts 0

unfoldable pub short_find : ShortFinder → Bytes → Option ℕ
short_find f haystack =
    if f.len == 0
    then some 0
    else if f.len == 1
    then find haystack (at f.bytes 0 ∷ [])
    else find_bytes f haystack

pub record Finder : Type 0 where
  pub value : Bytes
  pub skip : Option (List ℕ)
  pub prefix : List ℕ
  pub short : ShortFinder

-- The loop over `bytes[..bytes.len() - 1]`, from index `i` on; the first argument is what is left.
unfoldable pub skip_loop : ℕ → Bytes → ℕ → List ℕ → List ℕ
skip_loop zero bytes i skip = skip
skip_loop (suc n) bytes i skip =
    skip_loop n bytes (i + 1) (set skip (at bytes i) (length bytes - i - 1))

-- `while matched > 0 && byte != bytes[matched] { matched = prefix[matched - 1]; }`. Each round makes
-- `matched` smaller.
unfoldable pub fall_back : ℕ → Bytes → List ℕ → ℕ → ℕ → ℕ
fall_back zero bytes prefix byte matched = matched
fall_back (suc n) bytes prefix byte matched =
    let rest = fall_back n bytes prefix byte (get_or prefix (matched - 1) 0) in
    if ltb 0 matched && not (byte == at bytes matched) then rest else matched

-- The rounds of both loops that use the failure table.
unfoldable pub advance : Bytes → List ℕ → ℕ → ℕ → ℕ
advance bytes prefix byte matched =
    let m = fall_back matched bytes prefix byte matched in if byte == at bytes m then m + 1 else m

unfoldable pub prefix_loop : ℕ → Bytes → ℕ → List ℕ → List ℕ
prefix_loop zero bytes i prefix = prefix
prefix_loop (suc n) bytes i prefix =
    prefix_loop n bytes (i + 1)
      (set prefix i (advance bytes prefix (at bytes i) (get_or prefix (i - 1) 0)))

unfoldable pub finder_new : Bytes → Finder
finder_new bytes =
    let len = length bytes in
    if leb 8 len
    then record {
      value = bytes;
      skip = some (skip_loop (len - 1) bytes 0 (replicate 256 len));
      prefix = prefix_loop (len - 1) bytes 1 (replicate len 0);
      short = short_new bytes;
    }
    else record { value = bytes; skip = none; prefix = []; short = short_new bytes }

-- `for (i, byte) in haystack.iter().enumerate()`.
unfoldable pub linear_loop : Finder → Bytes → ℕ → ℕ → Option ℕ
linear_loop f [] i matched = none
linear_loop f (byte ∷ haystack) i matched =
    let m = advance f.value f.prefix byte matched in
    let rest = linear_loop f haystack (i + 1) m in
    if m == length f.value then some (i + 1 - m) else rest

unfoldable pub linear_find : Finder → Bytes → Option ℕ
linear_find f haystack = linear_loop f haystack 0 0

-- `while i > 0 && haystack[offset + i - 1] == needle[i - 1] { i -= 1; … }`.
unfoldable pub compare_back : ℕ → Bytes → Bytes → ℕ → ℕ
compare_back zero haystack needle offset = 0
compare_back (suc i) haystack needle offset =
    let rest = compare_back i haystack needle offset in
    if at haystack (offset + i) == at needle i then rest else suc i

-- `while offset <= haystack.len() - needle.len()`. No skip is 0, so as many rounds as offsets are enough.
unfoldable pub long_loop : ℕ → Finder → List ℕ → Bytes → ℕ → ℕ → Option ℕ
long_loop zero f skip haystack offset compared = none
long_loop (suc n) f skip haystack offset compared =
    let len = length f.value in
    let i = compare_back len haystack f.value offset in
    let compared' = compared + (len - i) + 1 in
    let step = get_or skip (at haystack (offset + len - 1)) 0 in
    let rest = long_loop n f skip haystack (offset + step) compared' in
    if ltb (length haystack - len) offset
    then none
    else if i == 0
    then some offset
    else if ltb (min (length haystack * 4) (2 ^ 64 - 1)) compared'
    then linear_find f haystack
    else rest

unfoldable pub find_long : Finder → List ℕ → Bytes → Option ℕ
find_long f skip haystack =
    if ltb (length haystack) (length f.value)
    then none
    else long_loop (length haystack - length f.value + 1) f skip haystack 0 0

abbrev pub finder_find_with : Option (List ℕ) → Finder → Bytes → Option ℕ
finder_find_with none f haystack = short_find f.short haystack
finder_find_with (some skip) f haystack = find_long f skip haystack

unfoldable pub finder_find : Finder → Bytes → Option ℕ
finder_find f haystack = finder_find_with f.skip f haystack
