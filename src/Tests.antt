-- ===== src/Tests.antt =====
-- Runs of the model on concrete data, and each theorem with a hypothesis at one such input.
mod Planners
mod Bundles
mod Histories
mod Service
mod Reading
mod Tips
mod Sessions
mod Glossary
mod Genres
mod Studio
mod Autosaves
mod Rerender
