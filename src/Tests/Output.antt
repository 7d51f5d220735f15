-- ===== src/Tests/Output.antt =====
-- The output buffer and the splitting of output, at small inputs.
use chatgpt_remote_mcp.Base.{◌≡◌, refl, false, [], ◌∷◌, ◌++◌, length, ltb, ◌≤◌}
use chatgpt_remote_mcp.Output.{
  OutputBuffer, new_buffer, stdout, stderr, append, trim_to, select_after,
}
use chatgpt_remote_mcp.Output.Invariant.{
  IsValid, live, bytes_of, numbered, new_buffer-IsValid, append-extends,
}
use chatgpt_remote_mcp.Output.Trim.{IsTrimmed, trim_to-IsTrimmed}
use chatgpt_remote_mcp.Output.Select.{
  newer, take_within, select_after-refines-scan, select_after-paging,
}
use chatgpt_remote_mcp.Chunks.{split_output_chunks}
use chatgpt_remote_mcp.Chunks.Loop.{IsSplit, split_output_chunks-IsSplit}

abbrev three : OutputBuffer
three = append stdout ((97 ∷ 98 ∷ []) ∷ (99 ∷ []) ∷ (100 ∷ 101 ∷ 102 ∷ []) ∷ []) new_buffer

three-IsValid : IsValid three
three-IsValid = (append-extends stdout _ new_buffer new_buffer-IsValid).0

append-extends_example :
    IsValid (append stderr ((120 ∷ []) ∷ []) three)
    × (live (append stderr ((120 ∷ []) ∷ []) three)
        ≡ live three ++ numbered stderr three.next_seq ((120 ∷ []) ∷ []))
    × ((append stderr ((120 ∷ []) ∷ []) three).base_seq ≡ three.base_seq)
    × ((append stderr ((120 ∷ []) ∷ []) three).dropped_bytes ≡ three.dropped_bytes)
append-extends_example = append-extends stderr ((120 ∷ []) ∷ []) three three-IsValid

trim_to-IsTrimmed_example : IsTrimmed 4 three (trim_to 4 three).0 (trim_to 4 three).1
trim_to-IsTrimmed_example = trim_to-IsTrimmed 4 three three-IsValid

trim_drops_oldest : (trim_to 4 three).1 ≡ 2
unfolding append trim_to
trim_drops_oldest = refl

select_after-refines-scan_example :
    ((select_after 1 2 three).chunks ≡ take_within 2 (newer 1 (live three)))
    × ((select_after 1 2 three).has_more
        ≡ ltb (length (select_after 1 2 three).chunks) (length (newer 1 (live three))))
    × ((select_after 1 2 three).selected_bytes ≡ bytes_of (select_after 1 2 three).chunks)
    × ((select_after 1 2 three).selected_bytes ≤ 2)
select_after-refines-scan_example = select_after-refines-scan 1 2 three three-IsValid

select_after-paging_example :
    newer 1 (live three)
    ≡ (select_after 1 2 three).chunks ++ newer (select_after 1 2 three).next_seq (live three)
select_after-paging_example = select_after-paging 1 2 three three-IsValid

select_stops : (select_after 1 2 three).next_seq ≡ 2
unfolding append select_after
select_stops = refl

-- "aé" cut inside the é.
split_output_chunks-IsSplit_example :
    IsSplit (97 ∷ 0xc3 ∷ []) false (split_output_chunks (97 ∷ 0xc3 ∷ []) false)
split_output_chunks-IsSplit_example = split_output_chunks-IsSplit (97 ∷ 0xc3 ∷ []) false

split_holds_back : (split_output_chunks (97 ∷ 0xc3 ∷ []) false).remainder ≡ 0xc3 ∷ []
unfolding split_output_chunks
split_holds_back = refl
