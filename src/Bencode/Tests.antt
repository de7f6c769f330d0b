-- ===== src/Bencode/Tests.antt =====
-- .torrent files at concrete bytes.
use phimtor.Base.{false, none, List, [], ◌∷◌, ◌++◌, ◌≡◌, ◌≢◌, arith}
use phimtor.Base.Bytes.{codes}
use phimtor.Base.Decimal.{decimal, decimal_loop}
use phimtor.Bencode.{Value, Entries, Outcome, decode_input}
use phimtor.Bencode.Parsing.{spell, IsFit}
use phimtor.Bencode.Spelling.{info_value}
use phimtor.Bencode.Reading.{decode_input-panicked}
use phimtor.Bencode.Roundtrip.{decode_input-spell}
use phimtor.Bencode.Fuel.{decode_input-ends}
use phimtor.Bencode.Files.{TorrentFileEntry, pick_video_file}
use phimtor.Bencode.Picking.{IsPicked, pick_video_file-IsPicked}

abbrev info_dict : Value
info_dict = Value.dict (
    Entries.entry (codes "length") (Value.int false 12)
      (Entries.entry (codes "name") (Value.string (codes "a.mkv")) Entries.empty))

abbrev torrent_value : Value
torrent_value = Value.dict (Entries.entry (codes "info") info_dict Entries.empty)

decode_input-spell_example :
    decode_input (spell torrent_value [])
    ≡ Outcome.ok torrent_value [] (info_value torrent_value none)
decode_input-spell_example =
    decode_input-spell torrent_value (unfold IsFit in ((omega arith, (tt, tt)), tt))
      (unfold spell decimal decimal_loop in omega arith)

decode_input-ends_example : decode_input (codes "l") ≢ Outcome.out_of_fuel
decode_input-ends_example = decode_input-ends (codes "l")

decode_input-panicked_example :
    decode_input (decimal 9223372036854775807 ++ codes ":x") ≡ Outcome.panicked
decode_input-panicked_example =
    decode_input-panicked 9223372036854775807 (codes "x") (omega arith) (omega arith)

abbrev some_files : List TorrentFileEntry
some_files =
    record { index = 0; path = codes "readme.txt"; size = (false, 900) }
    ∷ record { index = 1; path = codes "film.mkv"; size = (false, 700) }
    ∷ []

pick_video_file-IsPicked_example :
    IsPicked (λ s. s) some_files (pick_video_file (λ s. s) some_files)
pick_video_file-IsPicked_example = pick_video_file-IsPicked (λ s. s) some_files
