-- ===== src/Tests/Buffers.antt =====
-- Runs of the theorems on the output buffer.
use run_beacon.Base.{refl, ◌≤◌, [], ◌∷◌, false}
use run_beacon.Types.{JobOutputStream, OutputBuffer}
use run_beacon.Output.{trim_output_buffer}
use run_beacon.Output.Trim.{trim_output_buffer_lem}

-- Two chunks of four bytes, the first one with a character of three bytes.
abbrev buffer : OutputBuffer
buffer = record {
  output =
      record {
        sequence = 1;
        stream = JobOutputStream.stdout;
        text = 226 ∷ 130 ∷ 172 ∷ 65 ∷ [];
        timestamp = 0;
      }
      ∷ record {
        sequence = 2;
        stream = JobOutputStream.stdout;
        text = 66 ∷ 67 ∷ 68 ∷ 10 ∷ [];
        timestamp = 1;
      }
      ∷ [];
  output_bytes = 8;
  output_lines = 1;
  output_truncated = false;
}

trim_output_buffer_lem_example : (trim_output_buffer 6 buffer).output_bytes ≤ 6
trim_output_buffer_lem_example = (trim_output_buffer_lem 6 buffer refl).1
