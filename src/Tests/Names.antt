-- ===== src/Tests/Names.antt =====
-- Scanning a directory of two segment files.
use tcslog.Prelude.{◌↔◌, arith}
use tcslog.Exec.Post.{Ensures}
use tcslog.Fs.Ends.{IsIo}
use tcslog.Names.{build_name, scan_segment_ids}
use tcslog.Names.Scan.{In, IsSorted, HasFile, scan_segment_ids-IsSorted}
use tcslog.Tests.Data.{log_prefix, log_suffix, two_files}

scan_segment_ids-IsSorted_example :
    Ensures
      (scan_segment_ids log_prefix log_suffix)
      two_files
      (λ ids t.
        IsSorted ids × (In 9 ids ↔ HasFile (build_name log_prefix 9 log_suffix) two_files.files))
      IsIo
scan_segment_ids-IsSorted_example =
    scan_segment_ids-IsSorted log_prefix log_suffix 9 (omega arith) two_files
