-- ===== src/Playground.antt =====
-- playground/src/App.tsx: the page that edits a program, posts it and shows the answer.
pub mod Value
pub mod Languages
pub mod Presets
pub mod Flatten
pub mod State
pub mod Run
pub mod Answer
pub mod TestRun
pub mod Listing
pub mod Session
pub mod Element
pub mod PlayView
pub mod TestsView
pub mod View
pub mod Interaction
pub mod Refinement
pub mod Render
pub mod ServerList
pub mod Shown
