-- ===== src/Fundamentals/Context/Selected.antt =====
-- services/fundamentals/context.py: which documents and articles the context takes, in which order,
-- and what it says of the feeds they come from.
pub mod News
use Prim.Native.String.{String, compare}
use Prim.Native.Nat.{Ordering}
use agnostix_ai_quant_fund.Prelude.{
  ℕ, Bool, true, false, ◌&&◌, ◌||◌, Option, none, some, List, [], ◌∷◌, any, take, ltb, ◌==◌,
  if◌then◌else◌,
}
use agnostix_ai_quant_fund.Prelude.Text.{str_eq, lower, strip}
use agnostix_ai_quant_fund.Prelude.Sort.{sort_by}
use agnostix_ai_quant_fund.Fundamentals.{
  DataQuality, ok, incomplete, invalid, unavailable, DocumentType, filing, earnings_release,
  transcript, ir_presentation, announcement, news, ResearchDocument,
}
use agnostix_ai_quant_fund.Fundamentals.Context.{ContextNewsItem}

-- `a < b` of two texts
abbrev pub text_lt : String → String → Bool
text_lt a b = elim (compare a b) [ Ordering.lt ↦ true | _ ↦ false ]

-- `MAX_DOCUMENTS` and `MAX_NEWS`
abbrev pub max_documents : ℕ
max_documents = 5

abbrev pub max_news : ℕ
max_news = 5

-- `_DOC_TYPE_PRIORITY`
abbrev type_priority : DocumentType → ℕ
type_priority filing = 3
type_priority earnings_release = 3
type_priority transcript = 2
type_priority ir_presentation = 1
type_priority announcement = 1
type_priority news = 0

-- `key a < key b` of the key of `_rank_documents`
abbrev ranks_below : ResearchDocument → ResearchDocument → Bool
ranks_below a b =
    ltb (type_priority a.document_type) (type_priority b.document_type)
    || (type_priority a.document_type == type_priority b.document_type
        && (ltb a.published_at b.published_at
            || (a.published_at == b.published_at && text_lt a.document_id b.document_id)))

-- `_rank_documents`
pub rank_documents : List ResearchDocument → List ResearchDocument
rank_documents = sort_by (λ a b. ranks_below b a)

-- the documents of the context
pub select_documents : List ResearchDocument → List ResearchDocument
select_documents docs = take max_documents (rank_documents docs)

-- the provider and its identifier, which `seen` holds
abbrev pub same_provider : Option String → Option String → Bool
same_provider none none = true
same_provider none (some q) = false
same_provider (some p) none = false
same_provider (some p) (some q) = str_eq p q

unfoldable pub same_article : ContextNewsItem → ContextNewsItem → Bool
same_article a b =
    same_provider a.provider b.provider && str_eq a.provider_article_id b.provider_article_id

-- the loop of `_select_news`, where `seen` are the articles kept so far
unfoldable pub unique_from : List ContextNewsItem → List ContextNewsItem → List ContextNewsItem
unique_from seen [] = []
unique_from seen (n ∷ ordered) =
    let skipped = unique_from seen ordered in
    let kept = unique_from (n ∷ seen) ordered in
    if any (same_article n) seen then skipped else n ∷ kept

-- the two sorts: by identifier, then the newest first
unfoldable pub order_news : List ContextNewsItem → List ContextNewsItem
order_news items =
    sort_by (λ a b. ltb b.published_at a.published_at)
      (sort_by (λ a b. text_lt a.provider_article_id b.provider_article_id) items)

-- `_select_news`
unfoldable pub select_news : List ContextNewsItem → List ContextNewsItem
select_news items = take max_news (unique_from [] (order_news items))

-- `_FRESHNESS_TO_QUALITY`
abbrev pub freshness_to_quality : String → Option DataQuality
freshness_to_quality state =
    if str_eq state "fresh"
    then some ok
    else if str_eq state "stale"
    then some incomplete
    else if str_eq state "missing"
    then some unavailable
    else if str_eq state "invalid"
    then some invalid
    else none
