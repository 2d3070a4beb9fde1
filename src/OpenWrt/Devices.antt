-- ===== src/OpenWrt/Devices.antt =====
-- The ARP table of a system, read by parseARP.
use ai_assistant_driver.Common.{
  ◌≡◌, refl, sym, ap, ◌∙◌, true, false, ◌||◌, List, [], ◌∷◌, ◌++◌, ltb, if◌then◌else◌, length,
  get_or, All, All-append, append-nil, Text, codes, ok, err, ◌>>=◌, arith, Bool-cases, inl, inr,
}
use ai_assistant_driver.Common.Words.{newline, split, trim_space, trim_suffix}
use ai_assistant_driver.Common.Words.Joined.{
  IsWord, Padding, join_columns, join_lines, fields-join_columns,
}
use ai_assistant_driver.Common.Words.Trimmed.{IsLine, IsLine-join_columns, split-trim_space}
use ai_assistant_driver.OpenWrt.{Panic, index_out_of_range, Device}
use ai_assistant_driver.OpenWrt.Arp.{has_no_mac, host_name, parse_arp_lines, parse_arp}

-- An entry of /proc/net/arp.
pub record Entry : Type 0 where
  pub ip : Text
  pub hw_type : Text
  pub flags : Text
  pub mac : Text
  pub mask : Text
  pub device : Text

abbrev pub words_of : Entry → List Text
words_of e = e.ip ∷ e.hw_type ∷ e.flags ∷ e.mac ∷ e.mask ∷ e.device ∷ []

abbrev IsEntry : Entry → Type 0
IsEntry e = All IsWord (words_of e)

unfoldable pub print_entries : Padding → List Entry → List Text
print_entries pads [] = []
print_entries pads (e ∷ es) = join_columns pads 0 (words_of e) ∷ print_entries pads es

-- The header and the entries in columns, however they are padded.
unfoldable pub print_table : Padding → Text → List Entry → Text
print_table pads header es = join_lines (header ∷ print_entries pads es)

-- The entries with an address, each with the first name that its lookup gives.
unfoldable pub listed : (Text → List Text) → List Entry → List Device
listed names [] = []
listed names (e ∷ es) =
    let more = listed names es in
    if has_no_mac e.mac
    then more
    else record {
      ip = e.ip;
      mac = e.mac;
      hostname = trim_suffix (get_or (names e.ip) 0 []) (codes ".");
    }
      ∷ more

-- An entry has no address, or its lookup gives a name.
abbrev IsNamed : (Text → List Text) → Entry → Type 0
IsNamed names e = (has_no_mac e.mac || ltb 0 (length (names e.ip))) ≡ true

abbrev IsNameless : (Text → List Text) → Entry → Type 0
IsNameless names e = (has_no_mac e.mac ≡ false) × (names e.ip ≡ [])

module _ (pads : Padding) (names : Text → List Text) where
  host_name-named :
      (found : List Text)
      → ltb 0 (length found) ≡ true
      → host_name found ≡ ok (trim_suffix (get_or found 0 []) (codes "."))
  unfolding host_name
  host_name-named [] h = cc
  host_name-named (n ∷ ns) h = refl

  parse_arp_lines-entry :
      (e : Entry) (lines : List Text)
      → IsEntry e
      → parse_arp_lines names (join_columns pads 0 (words_of e) ∷ lines) ≡ (
          if has_no_mac e.mac
          then parse_arp_lines names lines
          else (host_name (names e.ip) >>= λ name. parse_arp_lines names lines >>= λ ds.
              ok (record { ip = e.ip; mac = e.mac; hostname = name } ∷ ds)))
  unfolding parse_arp_lines
  parse_arp_lines-entry e lines h = rw (fields-join_columns pads 0 (words_of e) h) refl

  lines-ok :
      (es : List Entry) (rest : List Text) (ds : List Device)
      → All IsEntry es
      → All (IsNamed names) es
      → parse_arp_lines names rest ≡ ok ds
      → parse_arp_lines names (print_entries pads es ++ rest) ≡ ok (listed names es ++ ds)
  unfolding print_entries listed
  lines-ok [] rest ds h named after = after
  lines-ok (e ∷ es) rest ds (h, hs) (named, nameds) after =
      let ih = lines-ok es rest ds hs nameds after in
      parse_arp_lines-entry e (print_entries pads es ++ rest) h
      ∙ (elim (Bool-cases (has_no_mac e.mac)) [
        | inl unknown ↦ rw (unknown, ih) refl
        | inr known ↦
            let found : ltb 0 (length (names e.ip)) ≡ true = rw (sym named) (rw known refl) in
            rw (known, host_name-named (names e.ip) found, ih) refl
      ])

  lines-err :
      (es : List Entry) (rest : List Text) (p : Panic)
      → All IsEntry es
      → All (IsNamed names) es
      → parse_arp_lines names rest ≡ err p
      → parse_arp_lines names (print_entries pads es ++ rest) ≡ err p
  unfolding print_entries
  lines-err [] rest p h named after = after
  lines-err (e ∷ es) rest p (h, hs) (named, nameds) after =
      let ih = lines-err es rest p hs nameds after in
      parse_arp_lines-entry e (print_entries pads es ++ rest) h
      ∙ (elim (Bool-cases (has_no_mac e.mac)) [
        | inl unknown ↦ rw (unknown, ih) refl
        | inr known ↦
            let found : ltb 0 (length (names e.ip)) ≡ true = rw (sym named) (rw known refl) in
            rw (known, host_name-named (names e.ip) found, ih) refl
      ])

  print_entries-IsLine : (es : List Entry) → All IsEntry es → All IsLine (print_entries pads es)
  unfolding print_entries
  print_entries-IsLine [] h = tt
  print_entries-IsLine (e ∷ es) (h, hs) = (
    IsLine-join_columns pads 0 e.ip (e.hw_type ∷ e.flags ∷ e.mac ∷ e.mask ∷ e.device ∷ []) h,
    print_entries-IsLine es hs,
  )

  split-print_table :
      (header : Text) (es : List Entry)
      → IsLine header
      → All IsEntry es
      → split newline (trim_space (print_table pads header es)) ≡ header ∷ print_entries pads es
  unfolding print_table
  split-print_table header es one h =
      split-trim_space header (print_entries pads es) (one, print_entries-IsLine es h)

  -- The header is dropped, and a table of nothing else has no devices.
  parse_arp-lines :
      (header : Text) (es : List Entry)
      → IsLine header
      → All IsEntry es
      → parse_arp names (print_table pads header es) ≡ parse_arp_lines names (print_entries pads es)
  unfolding parse_arp print_entries parse_arp_lines
  parse_arp-lines header [] one h = rw (split-print_table header [] one h) refl
  parse_arp-lines header (e ∷ es) one h =
      rw (split-print_table header (e ∷ es) one h) (ground arith)

  print_entries-append :
      (es fs : List Entry)
      → print_entries pads (es ++ fs) ≡ print_entries pads es ++ print_entries pads fs
  unfolding print_entries
  print_entries-append [] fs = refl
  print_entries-append (e ∷ es) fs =
      ap (λ ls. join_columns pads 0 (words_of e) ∷ ls) (print_entries-append es fs)

  -- From a table in columns, however they are padded, where the addresses have names, parseARP gives
  -- the entries that have a hardware address, in order, each with its first name and without the final
  -- dot.
  pub parse_arp-print_table :
      (header : Text) (es : List Entry)
      → IsLine header
      → All IsEntry es
      → All (IsNamed names) es
      → parse_arp names (print_table pads header es) ≡ ok (listed names es)
  unfolding parse_arp_lines
  parse_arp-print_table header es one h named =
      parse_arp-lines header es one h
      ∙ ap (parse_arp_lines names) (sym (append-nil (print_entries pads es)))
      ∙ lines-ok es [] [] h named refl
      ∙ ap (λ (ds : List Device). ok ds) (append-nil (listed names es))

  -- One entry with a hardware address whose lookup gives no name, behind entries that have names, and
  -- parseARP panics.
  parse_arp_nameless :
      (header : Text) (before after : List Entry) (e : Entry)
      → IsLine header
      → All IsEntry before
      → All IsEntry (e ∷ after)
      → All (IsNamed names) before
      → IsNameless names e
      → parse_arp names (print_table pads header (before ++ e ∷ after)) ≡ err index_out_of_range
  unfolding print_entries host_name
  parse_arp_nameless header before after e one h (he, hs) named (known, nothing) =
      parse_arp-lines header (before ++ e ∷ after) one
        (All-append IsEntry before (e ∷ after) h (he, hs))
      ∙ ap (parse_arp_lines names) (print_entries-append before (e ∷ after))
      ∙ lines-err before (print_entries pads (e ∷ after)) index_out_of_range h named
          (parse_arp_lines-entry e (print_entries pads after) he ∙ rw (known, nothing) refl)
