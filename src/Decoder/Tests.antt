-- ===== src/Decoder/Tests.antt =====
-- sabnzbd/decoder.py: an answer with a bad checksum, and the theorem of the decoder at work on it.
use sabnzbd.Prelude.{true, false, none, some, [], ◌∷◌}
use sabnzbd.Decoder.{World, NntpResponse, Article, attempt, decode}
use sabnzbd.Decoder.Handled.{IsHandled, decode-IsHandled}

abbrev no_server : World
no_server = record {
  precheck = false;
  finds_new_server = false;
  failure = none;
  name_failure = none;
}

abbrev bad_answer : NntpResponse
bad_answer = record {
  is_uu = false;
  status_code = 222;
  lines = [];
  bytes = 65 ∷ 66 ∷ [];
  bytes_decoded = 2;
  baddata = false;
  crc = none;
  file_size = 100;
  part_begin = 0;
  part_size = 2;
  file_name = some 7;
}

abbrev some_article : Article
some_article = record {
  lowest_partnum = true;
  file_size = 0;
  data_begin = 0;
  data_size = 0;
  decoded_size = 0;
  crc32 = none;
  decoded = false;
  on_disk = false;
  nzf_type = none;
  filename_checked = false;
  hashed = none;
  saved = [];
  registered = [];
  names = [];
  bad_articles = 0;
  new_fetcher = false;
  pauses = false;
}

decode-IsHandled_example :
    IsHandled no_server bad_answer some_article
      (attempt no_server bad_answer some_article).0
      (decode no_server bad_answer some_article)
decode-IsHandled_example = decode-IsHandled no_server bad_answer some_article
