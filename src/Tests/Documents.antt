-- ===== src/Tests/Documents.antt =====
-- Documents that are read.
use project_mediaswitch.Base.{
  ℕ, ◌+◌, ◌≡◌, refl, true, [], ◌∷◌, ◌++◌, Bytes, Option, none, length, drop, codes, All, arith,
  ◌==◌, if◌then◌else◌, ℤ,
}
use project_mediaswitch.Web.{span, Document, of_text}
use project_mediaswitch.Web.Names.{
  get, host, content_length, header_str, method_str, method_from_crc, header_from_crc,
}
use project_mediaswitch.Web.Parse.{Reading, read_headers, parse_headers}
use project_mediaswitch.Web.Compose.{with_headers}
use project_mediaswitch.Web.Lines.{Field, lines, IsName, IsField}
use project_mediaswitch.Web.Named.{header_str-IsName}
use project_mediaswitch.Web.Fuel.{read_headers_enough}
use project_mediaswitch.Web.Table.{table, parse_headers-lines}
use project_mediaswitch.Web.Written.{Entry}
use project_mediaswitch.Web.StartLine.{lacks}
use project_mediaswitch.Web.RoundTrip.{request, request-read}

-- The checksums of three words, which their lengths tell apart.
abbrev crc_32 : Bytes → ℕ
crc_32 s =
    if length s == 3
    then 4248514160
    else if length s == 4
    then 3475444733
    else if length s == 14
    then 314322716
    else 0

abbrev number : Bytes → Option ℤ
number s = none

abbrev host_field : Field
host_field = record { name = codes "Host"; value = codes "a" }

abbrev other_field : Field
other_field = record { name = codes "X"; value = codes "b c" }

abbrev received : Document
received =
    record (of_text
      (codes "GET / HTTP/1.1" ++ (13 ∷ 10 ∷ lines (host_field ∷ other_field ∷ []) (codes "hi")))) {
        rsline = span 0 14;
      }

other-IsName : IsName (codes "X")
other-IsName = record {
  first = b'X';
  others = [];
  shape = refl;
  plain = (refl, tt);
  not_blank = refl;
  not_cr = omega arith;
}

fields-IsField : All IsField (host_field ∷ other_field ∷ [])
unfolding header_str
fields-IsField = (
  record { name = header_str-IsName host; value = ((omega arith, tt), (refl, tt)) },
  (
    record {
      name = other-IsName;
      value = ((omega arith, (omega arith, (omega arith, tt))), (refl, tt));
    },
    tt,
  ),
)

parse_headers-lines_example :
    ((parse_headers crc_32 received).headers
      ≡ table crc_32 16 (host_field ∷ other_field ∷ []) received.headers)
    × (drop (parse_headers crc_32 received).body.start received.text ≡ codes "hi")
    × ((parse_headers crc_32 received).body.start + 2 ≡ length received.text)
    × ((parse_headers crc_32 received).body.stop ≡ length received.text)
    × ((parse_headers crc_32 received).header_count ≡ 1)
    × ((parse_headers crc_32 received).headers_parsed ≡ true)
unfolding lines
parse_headers-lines_example =
    parse_headers-lines crc_32 received host_field (other_field ∷ []) (codes "hi") refl
      fields-IsField

abbrev host_entry : Entry
host_entry = (host, codes "a.b")

abbrev length_entry : Entry
length_entry = (content_length, codes "2")

abbrev sent : Document
sent = request get (codes "/x") (host_entry ∷ length_entry ∷ []) (codes "hi")

request-read_example :
    ((with_headers crc_32 number (of_text sent.text)).method ≡ get)
    × ((with_headers crc_32 number (of_text sent.text)).uri ≡ sent.uri)
    × ((with_headers crc_32 number (of_text sent.text)).headers ≡ sent.headers)
    × ((with_headers crc_32 number (of_text sent.text)).body ≡ sent.body)
    × (drop sent.body.start sent.text ≡ codes "hi")
unfolding header_str method_str method_from_crc header_from_crc lacks
request-read_example =
    request-read crc_32 get (codes "/x") host_entry (length_entry ∷ []) number (codes "hi") refl
      refl refl refl (refl, (refl, tt))
      (
        ((omega arith, (omega arith, (omega arith, tt))), (refl, tt)),
        (((omega arith, tt), (refl, tt)), tt),
      )

abbrev at_start : Reading
at_start = record {
  name = span 16 16;
  given = [];
  headers = received.headers;
  count = 0;
  value = span 0 0;
}

read_headers_enough_example :
    read_headers crc_32 received.text (40 + 7) at_start 16
    ≡ read_headers crc_32 received.text 40 at_start 16
unfolding lines
read_headers_enough_example =
    read_headers_enough crc_32 received.text 40 7 at_start 16 refl (omega arith)
