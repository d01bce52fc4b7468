-- ===== src/Io.antt =====
-- Go's calls that may fail, over a state that they change: the value, or the error, and the state
-- after the call. The children are the parts of `bufio` that the mqtt package uses.
pub mod Reader
pub mod Writer
pub mod Result
