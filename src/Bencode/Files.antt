-- ===== src/Bencode/Files.antt =====
-- admin/torrentfile.go: the files of a torrent, and the video among them.
use phimtor.Base.{
  ℕ, suc, ◌+◌, ◌-◌, ◌^◌, Bool, true, false, not, ◌&&◌, ◌||◌, Option, none, some, List, [], ◌∷◌,
  ◌++◌, length, ltb, ◌==◌, if◌then◌else◌,
}
use phimtor.Base.Bytes.{Bytes, codes, same_bytes}
use phimtor.Bencode.{Value, Values, Entries, Outcome, decode_input}

-- An entry of the file list; the length is a sign and a size.
pub record TorrentFileEntry : Type 0 where
  pub index : ℕ
  pub path : Bytes
  pub size : Bool × ℕ

-- The last entry with a key.
pub dict_get : Bytes → Entries → Option Value
dict_get key Entries.empty = none
dict_get key (Entries.entry k v es) = elim (dict_get key es) [
  | none ↦ if same_bytes k key then some v else none
  | some w ↦ some w
]

abbrev pub int_or_zero : Option Value → Bool × ℕ
int_or_zero none = (false, 0)
int_or_zero (some (Value.int negative n)) = (negative, n)
int_or_zero (some (Value.string s)) = (false, 0)
int_or_zero (some (Value.list vs)) = (false, 0)
int_or_zero (some (Value.dict es)) = (false, 0)

abbrev pub text_or_empty : Option Value → Bytes
text_or_empty none = []
text_or_empty (some (Value.int negative n)) = []
text_or_empty (some (Value.string s)) = s
text_or_empty (some (Value.list vs)) = []
text_or_empty (some (Value.dict es)) = []

abbrev pub list_or_empty : Option Value → Values
list_or_empty none = Values.nil
list_or_empty (some (Value.int negative n)) = Values.nil
list_or_empty (some (Value.string s)) = Values.nil
list_or_empty (some (Value.list vs)) = vs
list_or_empty (some (Value.dict es)) = Values.nil

-- strings.Join with a slash.
pub join_more : List Bytes → Bytes
join_more [] = []
join_more (p ∷ ps) = b'/' ∷ (p ++ join_more ps)

pub join_path : List Bytes → Bytes
unfolding join_more
join_path [] = []
join_path (p ∷ ps) = p ++ join_more ps

pub path_parts : Values → List Bytes
path_parts Values.nil = []
path_parts (Values.item (Value.int negative n) vs) = path_parts vs
path_parts (Values.item (Value.string s) vs) = s ∷ path_parts vs
path_parts (Values.item (Value.list ws) vs) = path_parts vs
path_parts (Values.item (Value.dict es) vs) = path_parts vs

pub file_entry : ℕ → Entries → TorrentFileEntry
unfolding dict_get join_path path_parts
file_entry i es = record {
  index = i;
  path = join_path (path_parts (list_or_empty (dict_get (codes "path") es)));
  size = int_or_zero (dict_get (codes "length") es);
}

-- The index counts the entries that are skipped.
pub file_entries : ℕ → Values → List TorrentFileEntry
unfolding file_entry
file_entries i Values.nil = []
file_entries i (Values.item (Value.int negative n) vs) = file_entries (suc i) vs
file_entries i (Values.item (Value.string s) vs) = file_entries (suc i) vs
file_entries i (Values.item (Value.list ws) vs) = file_entries (suc i) vs
file_entries i (Values.item (Value.dict es) vs) = file_entry i es ∷ file_entries (suc i) vs

pub single_file : Entries → List TorrentFileEntry
unfolding dict_get
single_file info =
    record {
      index = 0;
      path = text_or_empty (dict_get (codes "name") info);
      size = int_or_zero (dict_get (codes "length") info);
    }
    ∷ []

abbrev pub files_or_single : Entries → Option Value → List TorrentFileEntry
files_or_single info none = single_file info
files_or_single info (some (Value.int negative n)) = single_file info
files_or_single info (some (Value.string s)) = single_file info
files_or_single info (some (Value.list vs)) = file_entries 0 vs
files_or_single info (some (Value.dict es)) = single_file info

pub data Parsed : Type 0 where
  torrent : Bytes → List TorrentFileEntry → Parsed
  invalid : Parsed
  crashed : Parsed

-- The digest is SHA-1's, in hexadecimal.
module _ (digest : Bytes → Bytes) where
  abbrev pub with_info : Bytes → Option Value → Parsed
  with_info raw none = invalid
  with_info raw (some (Value.int negative n)) = invalid
  with_info raw (some (Value.string s)) = invalid
  with_info raw (some (Value.list vs)) = invalid
  with_info raw (some (Value.dict info)) =
      torrent (digest raw) (files_or_single info (dict_get (codes "files") info))

  pub parse_outcome : Outcome → Parsed
  unfolding dict_get single_file file_entries
  parse_outcome (Outcome.ok (Value.int negative n) rest info) = invalid
  parse_outcome (Outcome.ok (Value.string s) rest info) = invalid
  parse_outcome (Outcome.ok (Value.list vs) rest info) = invalid
  parse_outcome (Outcome.ok (Value.dict top) rest none) = invalid
  parse_outcome (Outcome.ok (Value.dict top) rest (some raw)) =
      with_info raw (dict_get (codes "info") top)
  parse_outcome Outcome.failed = invalid
  parse_outcome Outcome.panicked = crashed
  parse_outcome Outcome.out_of_fuel = invalid

  pub parse_torrent_file : Bytes → Parsed
  unfolding parse_outcome
  parse_torrent_file input = parse_outcome (decode_input input)

abbrev pub has_slash : Bytes → Bool
has_slash [] = false
has_slash (c ∷ s) = c == b'/' || has_slash s

-- filepath.Ext: from the last dot of the last part of the path.
pub ext : Bytes → Bytes
ext [] = []
ext (c ∷ s) =
    let rest = ext s in
    if length rest == 0 then (if c == b'.' && not (has_slash s) then c ∷ s else []) else rest

pub is_video_ext : Bytes → Bool
is_video_ext e =
    same_bytes e (codes ".mp4")
    || same_bytes e (codes ".mkv")
    || same_bytes e (codes ".avi")
    || same_bytes e (codes ".webm")
    || same_bytes e (codes ".mov")
    || same_bytes e (codes ".m4v")
    || same_bytes e (codes ".wmv")
    || same_bytes e (codes ".flv")
    || same_bytes e (codes ".ts")
    || same_bytes e (codes ".m2ts")

-- A length as its distance from the smallest int64.
abbrev pub offset : Bool × ℕ → ℕ
offset (negative, n) = if negative then 2 ^ 63 - n else 2 ^ 63 + n

abbrev pub is_better : TorrentFileEntry → Option TorrentFileEntry → Bool
is_better f none = true
is_better f (some best) = ltb (offset best.size) (offset f.size)

-- strings.ToLower is an argument.
module _ (to_lower : Bytes → Bytes) where
  unfoldable pub is_video : TorrentFileEntry → Bool
  unfolding ext is_video_ext
  is_video f = is_video_ext (to_lower (ext f.path))

  unfoldable pub pick_loop :
      Option TorrentFileEntry → List TorrentFileEntry → Option TorrentFileEntry
  unfolding is_video
  pick_loop best [] = best
  pick_loop best (f ∷ fs) =
      let kept = pick_loop best fs in
      let taken = pick_loop (some f) fs in
      if not (is_video f) then kept else if is_better f best then taken else kept

  unfoldable pub pick_video_file : List TorrentFileEntry → Option TorrentFileEntry
  unfolding pick_loop
  pick_video_file fs = pick_loop none fs
