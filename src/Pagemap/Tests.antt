-- ===== src/Pagemap/Tests.antt =====
-- Runs of the model of os_02/lab_04/src/part_01/pagemap.c.
use operating_sys.Base.{
  ℕ, ◌+◌, ◌*◌, ◌^◌, ◌≡◌, refl, Option, none, some, List, [], ◌∷◌, ◌++◌, map, arith, ltb,
  if◌then◌else◌,
}
use operating_sys.Base.Outcome.{done}
use operating_sys.Pagemap.{before_newline, parse_line, print_page, handle_virtual_range}
use operating_sys.Pagemap.Pages.{entries, handle_virtual_range-entries}
use operating_sys.Pagemap.Parse.{digit, hex_value}
use operating_sys.Base.{replicate}
use operating_sys.Base.Texts.{codes}
use operating_sys.Pagemap.Maps.{PageFiles, pagemap_info}
use operating_sys.Pagemap.Maps.Lines.{MapLine, IsMapLine}
use operating_sys.Pagemap.Maps.Lines.Rounds.{shown_of}
use operating_sys.Pagemap.Maps.Lines.Reads.{text_of, pagemap_info-shown_of}

-- ` r-xp 0 fd:0 7 /a`, a newline and what the buffer holds behind it
abbrev behind : List ℕ
behind =
    114 ∷ 45 ∷ 120 ∷ 112 ∷ 32 ∷ 48 ∷ 32 ∷ 102 ∷ 100 ∷ 58 ∷ 48 ∷ 32 ∷ 55 ∷ 32 ∷ 32 ∷ 47 ∷ 97 ∷ 10 ∷ 0
    ∷ []

abbrev maps_line : List ℕ
maps_line =
    map digit (7 ∷ 15 ∷ 0 ∷ 0 ∷ []) ++ 45 ∷ (map digit (7 ∷ 15 ∷ 15 ∷ 1 ∷ []) ++ 32 ∷ behind)

name_read : (parse_line maps_line).lib_name ≡ 47 ∷ 97 ∷ []
unfolding parse_line before_newline
name_read = refl

-- Three pages, of which the third cannot be read.
abbrev pread : ℕ → Option ℕ
pread offset = if ltb offset 80 then some (2 ^ 63 + 2 ^ 55 + offset) else none

handle_virtual_range-entries_example :
    handle_virtual_range pread 3 (8 * 4096) (8 * 4096 + 3 * 4096) ≡ done (entries pread 3 8)
handle_virtual_range-entries_example =
    handle_virtual_range-entries pread 3 8 3 (omega arith) (omega arith)

two_pages : map (λ p. p.pfn) (entries pread 3 8) ≡ 64 ∷ 72 ∷ []
unfolding entries print_page
two_pages = refl

-- A line about two pages, with a name.
abbrev two_page_line : MapLine
two_page_line = record {
  lo = 8 ∷ 0 ∷ 0 ∷ 0 ∷ [];
  hi = 10 ∷ 0 ∷ 0 ∷ 0 ∷ [];
  perms = 114 ∷ 45 ∷ 120 ∷ 112 ∷ [];
  place = 48 ∷ [];
  dev = 48 ∷ 58 ∷ 48 ∷ [];
  inode = 55 ∷ [];
  blanks = 2;
  name = 47 ∷ 97 ∷ [];
}

two_page_line-IsMapLine : IsMapLine two_page_line
unfolding hex_value
two_page_line-IsMapLine = record {
  lo = ground arith;
  hi = ground arith;
  lo_fits = omega arith;
  hi_fits = omega arith;
  words = ground arith;
  name = ground arith;
  name_start = refl;
}

abbrev page_files : PageFiles
page_files = record {
  maps = λ path. some (text_of (two_page_line ∷ []) ∷ []);
  pagemap = λ path. some pread;
  garbage = replicate 32 0;
}

pagemap_info-shown_of_example :
    pagemap_info 64 3 page_files (codes "/p") ≡ shown_of pread 3 (two_page_line ∷ [])
pagemap_info-shown_of_example =
    pagemap_info-shown_of 64 3 page_files (codes "/p") ((two_page_line ∷ []) ∷ []) pread
      (omega arith) refl refl (((two_page_line-IsMapLine, tt), omega arith, omega arith), tt)
